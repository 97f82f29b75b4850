-- ===== src/Model/View.antt =====
-- The making of a model in model.c.
use piiptyyt.Model.Updates.{Update, UpdateModel}
use piiptyyt.Prelude.{Bool, Option, some, List, [], ◌>>◌, assert}

-- `made` tells whether the directory of the pictures is there, and `pictured` whether the picture
-- for users without one could be read: the program does not go on without either.
unfoldable pub update_model_new : Bool → Bool → List Update → Option UpdateModel
update_model_new made pictured store = do
  assert made
  assert pictured
  some (record { count = 0; current_ids = []; store = store })
