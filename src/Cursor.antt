-- ===== src/Cursor.antt =====
-- Reading a byte slice with a moving position, the way `from_bytes` and `apply_credential_blob` do:
-- `data` and `pos` are the position and the bytes from it on. A slice out of range panics.
pub mod Laws
use gabbro.Prelude.{
  ℕ, ◌+◌, ◌^◌, Bool, List, [], ◌∷◌, Result, ok, err, panic, length, take, drop, get_or, ltb,
  if◌then◌else◌,
}
use gabbro.Bytes.{Bytes, from_be}

pub record Cursor : Type 0 where
  pub pos : ℕ
  pub rest : Bytes

abbrev pub start : Bytes → Cursor
start bytes = record { pos = 0; rest = bytes }

abbrev pub Reader : Type 0 → Type 0 → Type 0
Reader E A = Cursor → Result E (A × Cursor)

-- `usize` has 64 bits on the platforms that are modelled.
abbrev pub usize_mod : ℕ
usize_mod = 2 ^ 64

module _ {E A : Type 0} where
  abbrev pub pure : A → Reader E A
  pure a c = ok (a, c)

  abbrev pub fail : E → Reader E A
  fail e c = err e

module _ {E : Type 0} where
  -- `if !b { return Err(e) }`
  unfoldable pub guard : Bool → E → Reader E (Unit {0})
  guard b e c = if b then ok (tt, c) else err e

module _ {E A B : Type 0} where
  abbrev pub continue : Result E (A × Cursor) → (A → Reader E B) → Result E (B × Cursor)
  continue (ok (a, c)) f = f a c
  continue (err e) f = err e
  continue panic f = panic

  infixl 10 ◌>>=◌ ◌>>◌
  unfoldable pub ◌>>=◌ : Reader E A → (A → Reader E B) → Reader E B
  ◌>>=◌ m f c = continue (m c) f

  abbrev pub ◌>>◌ : Reader E A → Reader E B → Reader E B
  m >> n = m >>= λ _. n

module _ {E : Type 0} where
  -- `if data.len() < pos + n { return Err(e) }`
  unfoldable pub need : E → ℕ → Reader E (Unit {0})
  need e n c = if ltb (length c.rest) n then err e else ok (tt, c)

  -- `&data[pos..pos + n]` and `pos += n`
  unfoldable pub slice : ℕ → Reader E Bytes
  slice n c =
      if ltb (length c.rest) n
      then panic
      else ok (take n c.rest, record { pos = c.pos + n; rest = drop n c.rest })

  -- The two together, as nearly every field is read.
  unfoldable pub read : E → ℕ → Reader E Bytes
  unfolding need slice ◌>>=◌
  read e n = do need e n; slice n

  -- `data[pos]` behind its length check
  unfoldable pub read_byte : E → Reader E ℕ
  unfolding read
  read_byte e = do bs ← read e 1; pure (get_or bs 0 0)

  -- `uN::from_be_bytes(data[pos..pos + n].try_into().unwrap())` behind a check of several fields
  unfoldable pub slice_word : ℕ → Reader E ℕ
  unfolding slice ◌>>=◌
  slice_word n = do bs ← slice n; pure (from_be bs)

  -- `uN::from_be_bytes(data[pos..pos + n].try_into().unwrap())` behind its length check
  unfoldable pub read_word : E → ℕ → Reader E ℕ
  unfolding read
  read_word e n = do bs ← read e n; pure (from_be bs)

  -- A length and as many bytes, each behind its length check.
  unfoldable pub read_prefixed : E → E → ℕ → Reader E Bytes
  unfolding read_word ◌>>=◌
  read_prefixed e f n = do len ← read_word e n; read f len
