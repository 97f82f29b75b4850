-- ===== src/Glib.antt =====
-- What the program takes from GLib: the interfaces below are arguments of the models that use them.
pub mod HashTable
pub mod Assoc
