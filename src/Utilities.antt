-- ===== src/Utilities.antt =====
-- src/microReticulum/Utilities: the containers of the program.
pub mod OrderedSet
pub mod GenerationalSet
