-- ===== src/Store/Codec.antt =====
-- The record layout of lmdb.py: an eight byte big-endian expiry, then the CBOR value; the names of
-- the databases of a namespace; and time.
use vfront.Common.{
  ℕ, ◌/◌, ◌^◌, ◌<◌, Str, ◌++◌, Bool, false, ◌||◌, ◌≡◌, Result, ok, err, struct_error, value_error,
  ◌==◌, length, take, drop, codes, str_eq, starts_with, if◌then◌else◌, arith, take-append,
  drop-append, starts_with-append, str_eq_iff,
}
use vfront.Common.Digits.{digits, value, length-digits, value-digits}

-- `time.time()` is counted in microseconds, and `int(now)` is in whole seconds.
abbrev pub int_seconds : ℕ → ℕ
int_seconds now = now / 1000000

abbrev pub int64_max : ℕ
int64_max = 9223372036854775807

-- `struct.pack(">q", n)` and `struct.unpack(">q", b)[0]` of a timestamp that is not negative.
unfoldable pub pack_q : ℕ → Str
pack_q n = digits 256 8 n

unfoldable pub unpack_q : Str → Result ℕ
unpack_q b = if length b == 8 then ok (value 256 0 b) else err struct_error

unfoldable pub exp_db : Str → Str
exp_db ns = codes "__exp__" ++ ns

unfoldable pub expmeta_db : Str → Str
expmeta_db ns = codes "__expmeta__" ++ ns

abbrev pub meta_db : Str
meta_db = codes "__meta__"

-- `_RESERVED_PREFIXES`
unfoldable pub is_reserved : Str → Bool
is_reserved ns =
    starts_with (codes "__exp__") ns
    || starts_with (codes "__expmeta__") ns
    || starts_with (codes "__meta__") ns

unfoldable pub esc_namespace : Str → Result Str
unfolding is_reserved
esc_namespace ns = if is_reserved ns then err value_error else ok ns

pub take-pack : (n : ℕ) (rest : Str) → take 8 (pack_q n ++ rest) ≡ pack_q n
unfolding pack_q
take-pack n rest = rw (length-digits 256 8 n) at (take-append (digits 256 8 n) rest)

-- A packed timestamp below 2 ^ 63 reads back.
pub unpack-pack : (n : ℕ) → n < 2 ^ 63 → unpack_q (pack_q n) ≡ ok n
unfolding unpack_q pack_q
unpack-pack n h = rw (length-digits 256 8 n, value-digits 256 (omega arith) 8 n (omega arith))

pub drop-pack : (n : ℕ) (rest : Str) → drop 8 (pack_q n ++ rest) ≡ rest
unfolding pack_q
drop-pack n rest = rw (length-digits 256 8 n) at (drop-append (digits 256 8 n) rest)

-- The databases of the namespaces that the store admits are different databases.
pub str_eq-exp_db-data : (ns ns' : Str) → is_reserved ns' ≡ false → str_eq (exp_db ns) ns' ≡ false
unfolding is_reserved exp_db
str_eq-exp_db-data ns ns' h =
    ground (arith, str_eq_iff (codes "__exp__" ++ ns) ns', starts_with-append (codes "__exp__") ns)

pub str_eq-expmeta_db-data :
    (ns ns' : Str) → is_reserved ns' ≡ false → str_eq (expmeta_db ns) ns' ≡ false
unfolding is_reserved expmeta_db
str_eq-expmeta_db-data ns ns' h =
    ground (
      arith,
      str_eq_iff (codes "__expmeta__" ++ ns) ns',
      starts_with-append (codes "__expmeta__") ns,
    )
