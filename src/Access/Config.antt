-- ===== src/Access/Config.antt =====
-- The access array of the configuration, read and written.
use sigfs.Base.{◌≡◌, ◌∙◌, Bool, true, false, ◌||◌, List, [], ◌∷◌, arith}
use sigfs.Access.{
  Access, init, Token, read, write, cascade, reset, unknown, set_token, set_tokens, of_config,
  to_config,
}

-- An access profile that is written to a configuration is read back unchanged.
pub of_config-to_config : (a : Access) → of_config (to_config a) ≡ a
unfolding of_config to_config
of_config-to_config a = ground arith

abbrev pub is_read : Token → Bool
is_read read = true
is_read _ = false

abbrev pub is_write : Token → Bool
is_write write = true
is_write _ = false

abbrev pub is_cascade : Token → Bool
is_cascade cascade = true
is_cascade _ = false

abbrev pub is_reset : Token → Bool
is_reset reset = true
is_reset _ = false

-- Some element of the array passes the test.
abbrev pub names : (Token → Bool) → List Token → Bool
names test [] = false
names test (t ∷ ts) = test t || names test ts

abbrev pub with_names : List Token → Access → Access
with_names ts a = record {
  read_access = a.read_access || names is_read ts;
  write_access = a.write_access || names is_write ts;
  cascade_flag = a.cascade_flag || names is_cascade ts;
  reset_flag = a.reset_flag || names is_reset ts;
}

one_name :
    (t : Token) (ts : List Token) (a : Access)
    → with_names ts (set_token t a) ≡ with_names (t ∷ ts) a
unfolding set_token
one_name read ts a = ground arith
one_name write ts a = ground arith
one_name cascade ts a = ground arith
one_name reset ts a = ground arith
one_name unknown ts a = ground arith

set_tokens_lem : (ts : List Token) (a : Access) → set_tokens ts a ≡ with_names ts a
unfolding set_tokens
set_tokens_lem [] a = ground arith
set_tokens_lem (t ∷ ts) a = set_tokens_lem ts (set_token t a) ∙ one_name t ts a

-- An access profile has exactly the rights and flags that its array names, in whatever order and
-- however often; unknown elements grant nothing.
pub of_config_lem : (ts : List Token) → of_config ts ≡ with_names ts init
unfolding of_config
of_config_lem ts = set_tokens_lem ts init
