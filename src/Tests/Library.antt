-- ===== src/Tests/Library.antt =====
-- Stand-ins for the libraries of the network: two keys, signatures that are sums, and encodings that
-- put the length of a text before it.
use pbft_block.Common.{
  ℕ, zero, suc, ◌+◌, ◌*◌, ◌≡◌, refl, Bool, true, false, Option, none, some, List, [], ◌∷◌, ◌++◌,
  length, eqb, arith,
}
use pbft_block.Text.{Str}
use pbft_block.Msg.{Checkpoint}
use pbft_block.Network.Wire.{CommunicationInfo, WireMsg, WireMsg2, TestMsg, Codec, Sm2, IsLawful}
use pbft_block.Tests.Data.{one, two, req, pre, prepare_from, commit_from}

abbrev weight : Bool → ℕ
weight true = 1
weight false = 2

abbrev sum : List ℕ → ℕ
sum [] = 0
sum (x ∷ xs) = x + sum xs

abbrev to_key : List ℕ → Bool
to_key (a ∷ b ∷ rest) = eqb b 1
to_key _ = false

abbrev apart : List ℕ → Option (List ℕ × ℕ × ℕ)
apart (r ∷ s ∷ v) = some (v, r, s)
apart _ = none

abbrev pub sm : Sm2 Bool Bool
sm = record {
  sign = λ seed key hash. some (seed, weight key * 1000 + sum hash);
  verify = λ key hash r s. some (eqb s (weight key * 1000 + sum hash));
  public_key = λ key. key;
  marshal = λ key. 4 ∷ weight key ∷ [];
  unmarshal = to_key;
  sign_digit_to_sign_data = λ v r s. some (r ∷ s ∷ v);
  sign_data_to_sign_digit = apart;
  sm3 = λ bytes. bytes;
  rlp_list = λ bytes. bytes;
}

pub sm-IsLawful : IsLawful sm
sm-IsLawful = record {
  verify-sign = λ seed key hash r s e. ground arith;
  unmarshal-marshal = elim [ true ↦ refl | false ↦ refl ];
  marshal_some = λ key. refl;
  marshal-IsByte = elim [ true ↦ omega arith | false ↦ omega arith ];
  digits = λ v r s sdata e. ground arith;
  no_digits = refl;
}

-- A text with its length before it.
abbrev sized : Str → List ℕ → List ℕ
sized x rest = length x ∷ x ++ rest

abbrev cut : ℕ → List ℕ → List ℕ × List ℕ
cut zero xs = ([], xs)
cut (suc n) [] = ([], [])
cut (suc n) (x ∷ xs) = let (a, b) = cut n xs in (x ∷ a, b)

abbrev first : List ℕ → List ℕ × List ℕ
first [] = ([], [])
first (n ∷ xs) = cut n xs

cut-append : (xs ys : List ℕ) → cut (length xs) (xs ++ ys) ≡ (xs, ys)
cut-append [] ys = refl
cut-append (x ∷ xs) ys = ground (arith, cut-append xs ys)

abbrev encode_info : CommunicationInfo → Option (List ℕ)
encode_info ci = some (ci.sig.r ∷ ci.sig.s ∷ sized ci.pay_load (sized ci.sig.v (sized ci.vrs [])))

abbrev decode_info : List ℕ → Option CommunicationInfo
decode_info (r ∷ s ∷ xs) =
    let (pay_load, ys) = first xs in
    let (v, zs) = first ys in
    let (vrs, _) = first zs in
    some (record { pay_load = pay_load; sig = record { v = v; r = r; s = s }; vrs = vrs })
decode_info _ = none

abbrev encode_cons : WireMsg → Option (List ℕ)
encode_cons m = some (sized m.typ (sized m.msg (sized m.sender [])))

-- The time is not on the wire.
abbrev decode_cons : List ℕ → Option WireMsg
decode_cons bytes =
    let (typ, ys) = first bytes in
    let (msg, zs) = first ys in
    let (sender, _) = first zs in
    some (record { msg = msg; timestamp = 0; typ = typ; sender = sender })

abbrev encode_cons2 : WireMsg2 → Option (List ℕ)
encode_cons2 m = none

abbrev decode_cons2 : List ℕ → Option WireMsg2
decode_cons2 bytes = none

abbrev decode_check : List ℕ → Option Checkpoint
decode_check bytes = none

abbrev decode_test : List ℕ → Option TestMsg
decode_test bytes = none

abbrev pub co : Codec
co = record {
  info = record { encode = encode_info; decode = decode_info };
  cons = record { encode = encode_cons; decode = decode_cons };
  cons2 = record { encode = encode_cons2; decode = decode_cons2 };
  check = record { encode = λ c. none; decode = decode_check };
  test = record { encode = λ m. none; decode = decode_test };
  json = record {
    tostring = λ p. one;
    to_request = λ text. req;
    to_pre_prepare = λ text. pre;
    to_prepare = λ text. prepare_from two;
    to_commit = λ text. commit_from two true;
  };
}

pub info_reads :
    (ci : CommunicationInfo) (bytes : List ℕ)
    → encode_info ci ≡ some bytes
    → decode_info bytes ≡ some ci
info_reads ci bytes e = ground (
  arith,
  cut-append ci.pay_load (sized ci.sig.v (sized ci.vrs [])),
  cut-append ci.sig.v (sized ci.vrs []),
  cut-append ci.vrs [],
)

pub cons_reads :
    (m : WireMsg) (bytes : List ℕ)
    → encode_cons m ≡ some bytes
    → decode_cons bytes ≡ some (record m { timestamp = 0 })
cons_reads m bytes e = ground (
  arith,
  cut-append m.typ (sized m.msg (sized m.sender [])),
  cut-append m.msg (sized m.sender []),
  cut-append m.sender [],
)
