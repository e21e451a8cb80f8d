-- ===== src/Events/Codec.antt =====
-- The types of event-listener/src/events/mod.rs, and the decoders of the crates `codec` and
-- `scale_decode` as parameters. A decoder takes a cursor, `&mut &[u8]`, and leaves what it has not
-- read, also where it fails.
use event_listener.Prelude.{
  ℕ, String, Bool, ◌≡◌, refl, ap, subst, List, [], ◌∷◌, ◌++◌, ◌&&◌, str_eq, append_assoc, ◌∙◌,
}
use event_listener.Outcome.{Result, ok, err, map_err}
use event_listener.Error.{CodecError, DecodeError}
use event_listener.Metadata.Types.{PortableRegistry}

pub data Phase : Type 0 where
  apply_extrinsic : ℕ → Phase
  finalization initialization : Phase

abbrev pub Decoder : Type 0 → Type 0 → Type 0
Decoder A E = List ℕ → Result A E × List ℕ

-- `StaticEvent`: the constants `PALLET` and `EVENT`, and `Decode`.
pub record StaticEvent (A : Type 0) : Type 0 where
  pub pallet : String
  pub event : String
  pub decode : Decoder A CodecError

unfoldable pub is_event : {A : Type 0} → StaticEvent A → String → String → Bool
is_event ev pallet event = str_eq ev.pallet pallet && str_eq ev.event event

-- The next decoder goes on where the one before has stopped.
abbrev pub next : {A B E : Type 0} → (A → Decoder B E) → Result A E × List ℕ → Result B E × List ℕ
next f (ok a, rest) = f a rest
next f (err e, rest) = (err e, rest)

infixl 5 ◌>>=◌ ◌>>◌
abbrev pub ◌>>=◌ : {A B E : Type 0} → Decoder A E → (A → Decoder B E) → Decoder B E
◌>>=◌ d f bytes = next f (d bytes)

abbrev pub ◌>>◌ : {A B E : Type 0} → Decoder A E → Decoder B E → Decoder B E
m >> k = m >>= λ _. k

-- A result that reads nothing.
abbrev pub lift : {A E : Type 0} → Result A E → Decoder A E
lift r bytes = (r, bytes)

-- A decoder with its error converted.
abbrev pub convert : {A E F : Type 0} → (E → F) → Decoder A E → Decoder A F
convert f d bytes = (map_err f (d bytes).0, (d bytes).1)

-- The decoders of the crates, for block hashes of a type `Hash`. `phase` is derived, and `skip` is
-- `scale_decode::decode` with an `IgnoreVisitor`.
pub record Codec (Hash : Type 0) : Type 0 where
  pub compact_u32 : Decoder ℕ CodecError
  pub u8 : Decoder ℕ CodecError
  pub phase : Decoder Phase CodecError
  pub topics : Decoder (List Hash) CodecError
  pub skip : PortableRegistry → ℕ → Decoder (Unit {0}) DecodeError

-- `rest` is what is left of `bytes` after some have been taken off the front.
abbrev pub Reads : List ℕ → List ℕ → Type 0
Reads bytes rest = (used : List ℕ) × (bytes ≡ used ++ rest)

pub Reads-refl : (bytes : List ℕ) → Reads bytes bytes
Reads-refl bytes = ([], refl)

pub Reads-trans : {a b c : List ℕ} → Reads a b → Reads b c → Reads a c
Reads-trans {c = c} (u, e) (v, f) = (u ++ v, e ∙ ap (λ t. u ++ t) f ∙ append_assoc_sym u v c)
  where
    append_assoc_sym : (x y z : List ℕ) → x ++ (y ++ z) ≡ (x ++ y) ++ z
    append_assoc_sym x y z = rw append_assoc

-- What the program relies on: a decoder takes bytes off the front, and `u8::decode` takes one.
pub record IsLawful {Hash : Type 0} (c : Codec Hash) : Type 0 where
  pub compact_u32_reads : (bytes : List ℕ) → Reads bytes (c.compact_u32 bytes).1
  pub phase_reads : (bytes : List ℕ) → Reads bytes (c.phase bytes).1
  pub topics_reads : (bytes : List ℕ) → Reads bytes (c.topics bytes).1
  pub skip_reads :
      (types : PortableRegistry) (id : ℕ) (bytes : List ℕ) → Reads bytes (c.skip types id bytes).1
  pub u8_byte : (b : ℕ) (bytes : List ℕ) → c.u8 (b ∷ bytes) ≡ (ok b, bytes)
  pub u8_empty : (e : CodecError) × (c.u8 [] ≡ (err e, []))

-- What holds of the value and of the rest, where the decoder succeeds.
abbrev pub Ensures : {A E : Type 0} → (A → List ℕ → Type 0) → Result A E × List ℕ → Type 0
Ensures P (ok a, rest) = P a rest
Ensures P (err e, rest) = Unit

module _ {A B E : Type 0} (P : B → List ℕ → Type 0) where
  Ensures-next :
      (r : Result A E × List ℕ) (f : A → Decoder B E)
      → ((a : A) (mid : List ℕ) → r ≡ (ok a, mid) → Ensures P (f a mid))
      → Ensures P (next f r)
  Ensures-next (ok a, mid) f k = k a mid refl
  Ensures-next (err e, mid) f k = tt

  pub Ensures-bind :
      (d : Decoder A E) (f : A → Decoder B E) (bytes : List ℕ)
      → ((a : A) (mid : List ℕ) → d bytes ≡ (ok a, mid) → Ensures P (f a mid))
      → Ensures P ((d >>= f) bytes)
  Ensures-bind d f bytes k = Ensures-next (d bytes) f k

  pub Ensures-lift :
      (r : Result A E) (f : A → Decoder B E) (bytes : List ℕ)
      → ((a : A) → r ≡ ok a → Ensures P (f a bytes))
      → Ensures P ((lift r >>= f) bytes)
  Ensures-lift (ok a) f bytes k = k a refl
  Ensures-lift (err e) f bytes k = tt

pub Ensures-mono :
    {A E : Type 0} (P Q : A → List ℕ → Type 0) (r : Result A E × List ℕ)
    → ((a : A) (rest : List ℕ) → P a rest → Q a rest)
    → Ensures P r
    → Ensures Q r
Ensures-mono P Q (ok a, rest) k h = k a rest h
Ensures-mono P Q (err e, rest) k h = tt

pub Ensures-ok :
    {A E : Type 0} (P : A → List ℕ → Type 0) (r : Result A E × List ℕ) (a : A)
    → Ensures P r
    → r.0 ≡ ok a
    → P a r.1
Ensures-ok P (ok b, rest) a h e = subst (λ x. P x rest) (cc) h
Ensures-ok P (err x, rest) a h e = cc

convert_pair-eq-ok :
    {A E F : Type 0} (f : E → F) (r : Result A E × List ℕ) {a : A} {rest : List ℕ}
    → ◌≡◌ {A = Result A F × List ℕ} (map_err f r.0, r.1) (ok a, rest)
    → r ≡ (ok a, rest)
convert_pair-eq-ok f (ok b, mid) h = cc
convert_pair-eq-ok f (err e, mid) h = cc

pub convert-eq-ok :
    {A E F : Type 0} (f : E → F) (d : Decoder A E) (bytes : List ℕ) {a : A} {rest : List ℕ}
    → convert f d bytes ≡ (ok a, rest)
    → d bytes ≡ (ok a, rest)
convert-eq-ok f d bytes h = convert_pair-eq-ok f (d bytes) h

pub map_err-eq-ok :
    {A E F : Type 0} (f : E → F) (r : Result A E) {a : A} → map_err f r ≡ ok a → r ≡ ok a
map_err-eq-ok f (ok b) h = cc
map_err-eq-ok f (err e) h = cc

-- What a converted decoder leaves is what the decoder leaves.
pub convert-Reads :
    {A E F : Type 0} (f : E → F) (d : Decoder A E) (bytes : List ℕ) {a : A} {rest : List ℕ}
    → Reads bytes (d bytes).1
    → convert f d bytes ≡ (ok a, rest)
    → Reads bytes rest
convert-Reads {A} {F = F} f d bytes h e =
    subst (Reads bytes) (ap (λ (r : Result A F × List ℕ). r.1) e) h
