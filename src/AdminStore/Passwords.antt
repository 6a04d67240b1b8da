-- ===== src/AdminStore/Passwords.antt =====
-- A password that was set is the one that is verified.
use cloudlink.Prelude.{string_eq, nat_eq}
