-- ===== src/Update/Tags.antt =====
-- A reader of markup: what is shown of it, and its tags.
use piiptyyt.Model.Rows.{times}
use piiptyyt.Prelude.{
  ◌≡◌, refl, ap, ◌∙◌, Bool, true, false, [], ◌∷◌, ◌++◌, arith, Bytes, ◌==◌, if◌then◌else◌,
}

-- Whether a tag, from `<` (60) to `>` (62), is open behind the text; `open_tag` tells whether one
-- is open before it.
unfoldable pub is_open : Bool → Bytes → Bool
is_open open_tag [] = open_tag
is_open false (c ∷ s) =
    let inside = is_open true s in
    let outside = is_open false s in if c == 60 then inside else outside
is_open true (c ∷ s) =
    let inside = is_open true s in
    let outside = is_open false s in if c == 62 then outside else inside

-- The characters outside of tags.
unfoldable pub shown_text : Bool → Bytes → Bytes
shown_text open_tag [] = []
shown_text false (c ∷ s) =
    let inside = shown_text true s in
    let outside = c ∷ shown_text false s in if c == 60 then inside else outside
shown_text true (c ∷ s) =
    let inside = shown_text true s in
    let outside = shown_text false s in if c == 62 then outside else inside

-- The tags, one after the other.
unfoldable pub tags : Bool → Bytes → Bytes
tags open_tag [] = []
tags false (c ∷ s) =
    let inside = c ∷ tags true s in
    let outside = tags false s in if c == 60 then inside else outside
tags true (c ∷ s) =
    let inside = c ∷ tags true s in
    let outside = c ∷ tags false s in if c == 62 then outside else inside

-- A piece of markup that leaves no tag open, with what is shown of it and its tags.
pub record IsPiece (s text marks : Bytes) : Type 0 where
  pub closed : is_open false s ≡ false
  pub shown : shown_text false s ≡ text
  pub tagged : tags false s ≡ marks

is_open-append : (b : Bool) (s t : Bytes) → is_open b (s ++ t) ≡ is_open (is_open b s) t
unfolding is_open
is_open-append b [] t = refl
is_open-append true (c ∷ s) t = ground (arith, is_open-append true s t, is_open-append false s t)
is_open-append false (c ∷ s) t = ground (arith, is_open-append true s t, is_open-append false s t)

shown_text-append :
    (b : Bool) (s t : Bytes) → shown_text b (s ++ t) ≡ shown_text b s ++ shown_text (is_open b s) t
unfolding is_open shown_text
shown_text-append b [] t = refl
shown_text-append true (c ∷ s) t =
    ground (arith, shown_text-append true s t, shown_text-append false s t)
shown_text-append false (c ∷ s) t =
    ground (arith, shown_text-append true s t, shown_text-append false s t)

tags-append : (b : Bool) (s t : Bytes) → tags b (s ++ t) ≡ tags b s ++ tags (is_open b s) t
unfolding is_open tags
tags-append b [] t = refl
tags-append true (c ∷ s) t = ground (arith, tags-append true s t, tags-append false s t)
tags-append false (c ∷ s) t = ground (arith, tags-append true s t, tags-append false s t)

pub IsPiece-append :
    {s t text text' marks marks' : Bytes}
    → IsPiece s text marks
    → IsPiece t text' marks'
    → IsPiece (s ++ t) (text ++ text') (marks ++ marks')
IsPiece-append {s} {t} {text} {text'} {marks} {marks'} p q = record {
  closed = is_open-append false s t ∙ ap (λ b. is_open b t) p.closed ∙ q.closed;
  shown =
      shown_text-append false s t
      ∙ ap (λ b. shown_text false s ++ shown_text b t) p.closed
      ∙ ap (λ x. x ++ shown_text false t) p.shown
      ∙ ap (λ x. text ++ x) q.shown;
  tagged =
      tags-append false s t
      ∙ ap (λ b. tags false s ++ tags b t) p.closed
      ∙ ap (λ x. x ++ tags false t) p.tagged
      ∙ ap (λ x. marks ++ x) q.tagged;
}

-- A text without `<` is shown as it is.
pub plain-IsPiece : (s : Bytes) → times 60 s ≡ 0 → IsPiece s s []
unfolding is_open shown_text tags
plain-IsPiece [] none_there = record { closed = refl; shown = refl; tagged = refl }
plain-IsPiece (c ∷ s) none_there =
    let other : (c == 60) ≡ false = ground arith in
    let rest = plain-IsPiece s (ground arith) in
    record {
      closed = rw other rest.closed;
      shown = rw other (ap (λ t. c ∷ t) rest.shown);
      tagged = rw other rest.tagged;
    }
