-- ===== src/Cryptography.antt =====
-- src/microReticulum/Cryptography: padding to whole blocks, tokens, which are encrypted and
-- signed. The errors here are the exceptions that these files throw.
pub mod Derivation
pub mod Padding
pub mod Token
