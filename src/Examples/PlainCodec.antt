-- ===== src/Examples/PlainCodec.antt =====
-- An encoding of events by numbers, to run the store of src/store.rs on: it stands in for the
-- protobuf encoding, of which the program needs no more than that it is lossless.
use Prim.Native.Char.{Char, char, code, IsLt, IsScalar}
use Prim.Native.Nat.{Ordering, compare}
use Prim.Native.String.{[] as empty, ◌∷◌ as ◌∷ₛ◌}
use quote_ledger.Common.{
  ℕ, zero, suc, [], ◌∷◌, ◌≡◌, refl, ap, String, Option, none, some, Result, ok, err,
}
use quote_ledger.Common.Int.{ℤ, pos, negsuc}
use quote_ledger.Wire.{QuoteEvent, EventKind, quote_created, line_item_added, quote_finalized}
use quote_ledger.Store.Tables.{Bytes}
use quote_ledger.Store.Codec.{Codec, IsLossless}

-- `IsScalar n` at its three comparisons.
abbrev BothLt : Ordering → Ordering → Type 0
BothLt Ordering.lt o = IsLt o
BothLt Ordering.eq _ = ⊥
BothLt Ordering.gt _ = ⊥

abbrev Scalar : Ordering → Ordering → Ordering → Type 0
Scalar Ordering.lt _ _ = Unit
Scalar Ordering.eq o p = BothLt o p
Scalar Ordering.gt o p = BothLt o p

abbrev is_lt : (o : Ordering) → Option (IsLt o)
is_lt Ordering.lt = some tt
is_lt Ordering.eq = none
is_lt Ordering.gt = none

abbrev are_both_lt : (o p : Ordering) → Option (BothLt o p)
are_both_lt Ordering.lt p = is_lt p
are_both_lt Ordering.eq p = none
are_both_lt Ordering.gt p = none

abbrev is_scalar : (o p r : Ordering) → Option (Scalar o p r)
is_scalar Ordering.lt p r = some tt
is_scalar Ordering.eq p r = are_both_lt p r
is_scalar Ordering.gt p r = are_both_lt p r

is_lt_complete : (o : Ordering) (w : IsLt o) → is_lt o ≡ some w
is_lt_complete Ordering.lt w = refl
is_lt_complete Ordering.eq w = absurd w
is_lt_complete Ordering.gt w = absurd w

are_both_lt_complete : (o p : Ordering) (w : BothLt o p) → are_both_lt o p ≡ some w
are_both_lt_complete Ordering.lt p w = is_lt_complete p w
are_both_lt_complete Ordering.eq p w = absurd w
are_both_lt_complete Ordering.gt p w = absurd w

is_scalar_complete : (o p r : Ordering) (w : Scalar o p r) → is_scalar o p r ≡ some w
is_scalar_complete Ordering.lt p r w = refl
is_scalar_complete Ordering.eq p r w = are_both_lt_complete p r w
is_scalar_complete Ordering.gt p r w = are_both_lt_complete p r w

char_if : (n : ℕ) → Option (IsScalar n) → Option Char
char_if n none = none
char_if n (some w) = some (char n w)

char_of : ℕ → Option Char
char_of n = char_if n (is_scalar (compare n 55296) (compare 57343 n) (compare n 1114112))

char_of-code : (c : Char) → char_of (code c) ≡ some c
unfolding char_of char_if
char_of-code (char n w) = ap (char_if n) (is_scalar_complete _ _ _ w)

-- A text and what follows it: each character's number plus one, then 0.
write_text : String → Bytes → Bytes
write_text empty rest = 0 ∷ rest
write_text (c ∷ₛ s) rest = suc (code c) ∷ write_text s rest

push_char : Option Char → Option (String × Bytes) → Option (String × Bytes)
push_char none r = none
push_char (some c) none = none
push_char (some c) (some (s, rest)) = some (c ∷ₛ s, rest)

read_text : Bytes → Option (String × Bytes)
read_text [] = none
read_text (zero ∷ rest) = some (empty, rest)
read_text (suc n ∷ rest) = push_char (char_of n) (read_text rest)

read_text-write_text : (s : String) (rest : Bytes) → read_text (write_text s rest) ≡ some (s, rest)
unfolding read_text write_text push_char
read_text-write_text empty rest = refl
read_text-write_text (c ∷ₛ s) rest = rw (char_of-code c, read_text-write_text s rest) refl

write_int : ℤ → Bytes → Bytes
write_int (pos n) rest = 0 ∷ n ∷ rest
write_int (negsuc n) rest = 1 ∷ n ∷ rest

read_int : Bytes → Option (ℤ × Bytes)
read_int (zero ∷ n ∷ rest) = some (pos n, rest)
read_int (suc zero ∷ n ∷ rest) = some (negsuc n, rest)
read_int _ = none

read_int-write_int : (z : ℤ) (rest : Bytes) → read_int (write_int z rest) ≡ some (z, rest)
unfolding read_int write_int
read_int-write_int (pos n) rest = refl
read_int-write_int (negsuc n) rest = refl

write_kind : Option EventKind → Bytes
write_kind none = []
write_kind (some (quote_created currency jurisdiction)) =
    1 ∷ write_text currency (write_text jurisdiction [])
write_kind (some (line_item_added line sku description quantity unit)) =
    2
    ∷ write_text line
        (write_text sku (write_text description (write_int quantity (write_int unit []))))
write_kind (some quote_finalized) = 3 ∷ []

abbrev and_then : {A B : Type 0} → Option A → (A → Option B) → Option B
and_then none f = none
and_then (some a) f = f a

read_created : Bytes → Option (Option EventKind)
read_created b =
    and_then (read_text b)
      (λ r. and_then (read_text r.1) (λ r2. some (some (quote_created r.0 r2.0))))

read_added : Bytes → Option (Option EventKind)
read_added b = and_then (read_text b) (λ line. and_then (read_text line.1) (λ sku.
    and_then (read_text sku.1) (λ description. and_then (read_int description.1) (λ quantity.
      and_then (read_int quantity.1)
        (λ unit. some (some (line_item_added line.0 sku.0 description.0 quantity.0 unit.0)))))))

read_kind : Bytes → Option (Option EventKind)
read_kind [] = some none
read_kind (suc zero ∷ b) = read_created b
read_kind (suc (suc zero) ∷ b) = read_added b
read_kind (suc (suc (suc zero)) ∷ b) = some (some quote_finalized)
read_kind _ = none

read_kind-write_kind : (k : Option EventKind) → read_kind (write_kind k) ≡ some k
unfolding read_kind write_kind read_created read_added
read_kind-write_kind none = refl
read_kind-write_kind (some (quote_created currency jurisdiction)) =
    rw (read_text-write_text currency _) (rw (read_text-write_text jurisdiction []) refl)
read_kind-write_kind (some (line_item_added line sku description quantity unit)) =
    rw (read_text-write_text line _) (
      rw (read_text-write_text sku _) (
        rw (read_text-write_text description _)
          (rw (read_int-write_int quantity _) (rw (read_int-write_int unit []) refl))))
read_kind-write_kind (some quote_finalized) = refl

event_if : Option (Option EventKind) → Result QuoteEvent String
event_if none = err "not an event"
event_if (some k) = ok (record { kind = k })

unfoldable pub plain_codec : Codec
unfolding write_kind event_if read_kind write_text write_int read_created read_added read_text
    read_int push_char char_of char_if
plain_codec = record {
  encode = λ ev. ok (write_kind ev.kind);
  decode = λ b. event_if (read_kind b);
}

unfoldable pub payload : QuoteEvent → Bytes
unfolding write_kind write_text write_int
payload ev = write_kind ev.kind

pub payload_lem : (ev : QuoteEvent) → plain_codec.encode ev ≡ ok (payload ev)
unfolding plain_codec payload
payload_lem ev = refl

pub plain_codec-IsLossless : IsLossless plain_codec
unfolding plain_codec
plain_codec-IsLossless = record { encodes = λ ev. (write_kind ev.kind, refl); decodes = decoded }
  where
    decoded :
        (ev : QuoteEvent) (b : Bytes) → plain_codec.encode ev ≡ ok b → plain_codec.decode b ≡ ok ev
    decoded ev b e =
        let same : write_kind ev.kind ≡ b = cc e in
        rw (← same) (rw (read_kind-write_kind ev.kind) (unfold event_if in refl))
