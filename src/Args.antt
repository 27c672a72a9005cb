-- ===== src/Args.antt =====
-- src/args.rs: the first encoding of a call's arguments, which the publisher does not use any more.
-- Values stand as their bit patterns, a value of a user's type as its bytes. The assertions `_V1` and
-- `_V2` on the sizes are constants that nothing refers to, so that no build evaluates them: `new`
-- takes arguments of any size.
pub mod Compat
use nanolog_rs.Prelude.{
  ℕ, ◌+◌, ◌≡◌, ◌==◌, bit_and, Bool, true, false, List, [], ◌∷◌, ◌++◌, length, replicate,
}
use nanolog_rs.Prelude.Bytes.{le_bytes}

-- A value of one of the types that implement `Arg`.
pub data Value : Type 0 where
  of_f64 of_u64 of_i64 of_u32 of_i32 of_u16 of_i16 of_u8 of_i8 : ℕ → Value
  of_bool : Bool → Value
  of_user_pod : List ℕ → Value

unfoldable pub bool_byte : Bool → ℕ
bool_byte true = 1
bool_byte false = 0

-- The bytes of a value in memory.
unfoldable pub bytes_of : Value → List ℕ
unfolding bool_byte
bytes_of (of_f64 v) = le_bytes 8 v
bytes_of (of_u64 v) = le_bytes 8 v
bytes_of (of_i64 v) = le_bytes 8 v
bytes_of (of_u32 v) = le_bytes 4 v
bytes_of (of_i32 v) = le_bytes 4 v
bytes_of (of_u16 v) = le_bytes 2 v
bytes_of (of_i16 v) = le_bytes 2 v
bytes_of (of_u8 v) = le_bytes 1 v
bytes_of (of_i8 v) = le_bytes 1 v
bytes_of (of_bool b) = bool_byte b ∷ []
bytes_of (of_user_pod xs) = xs

-- `Arg::ARG_TAG`
unfoldable pub arg_tag : Value → ℕ
arg_tag (of_f64 v) = 0
arg_tag (of_u64 v) = 1
arg_tag (of_i64 v) = 2
arg_tag (of_u32 v) = 3
arg_tag (of_i32 v) = 4
arg_tag (of_u16 v) = 5
arg_tag (of_i16 v) = 6
arg_tag (of_u8 v) = 7
arg_tag (of_i8 v) = 8
arg_tag (of_bool b) = 9
arg_tag (of_user_pod xs) = 13

-- `ArgTag::ARG_TAG`, and that of `PodTag`, which every other type has.
unfoldable pub inherent_tag : Value → ℕ
inherent_tag (of_bool b) = 0
inherent_tag (of_u8 v) = 1
inherent_tag (of_u16 v) = 2
inherent_tag (of_u32 v) = 3
inherent_tag (of_u64 v) = 4
inherent_tag (of_i8 v) = 5
inherent_tag (of_i16 v) = 6
inherent_tag (of_i32 v) = 7
inherent_tag (of_i64 v) = 8
inherent_tag (of_f64 v) = 9
inherent_tag (of_user_pod xs) = 13

unfoldable pub is_align8 : Value → Bool
is_align8 a = bit_and (length (bytes_of a)) 7 == 0

-- `IntoArg` for `u32`, which gives a `u64`; a value of a user's type stays as it is.
unfoldable pub into_arg_u32 : ℕ → Value
into_arg_u32 v = of_u64 v

-- `Args1::new` and `Args2::new`, as the bytes of the packed structs.
unfoldable pub args1 : Value → List ℕ
args1 arg1 = arg_tag arg1 ∷ (replicate 7 0 ++ bytes_of arg1)

unfoldable pub args2 : Value → Value → List ℕ
args2 arg1 arg2 = arg_tag arg1 ∷ arg_tag arg2 ∷ (replicate 6 0 ++ bytes_of arg1 ++ bytes_of arg2)
