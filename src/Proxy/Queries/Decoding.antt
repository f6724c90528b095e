-- ===== src/Proxy/Queries/Decoding.antt =====
-- src/proxy.rs, `url_decode` and `query_param`: they read back what a form encodes.
use brave_search_api_rotator.Base.{
  ℕ, ◌+◌, ◌/◌, ◌%◌, ◌<◌, ◌≡◌, refl, sym, ap, ◌∙◌, inl, inr, arith, Bool, true, false, ◌&&◌, ◌||◌,
  List, [], ◌∷◌, ◌++◌, Option, none, some, leb, ltb, ◌==◌, if◌then◌else◌, All, ==_iff, Bool-cases,
}
use brave_search_api_rotator.Text.{Text, codes, equal, split, split_first}
use brave_search_api_rotator.Text.Pieces.{Free, split-Free, split-at}
use brave_search_api_rotator.Proxy.Queries.{
  hex, escaped, plain, decode_bytes, url_decode, find_param, find_in, describe_request, short,
}

-- The form encoding: a blank is a plus, letters, digits and four marks stand for themselves, and
-- any other byte is a percent sign and two digits.
abbrev pub hex_digit : ℕ → ℕ
hex_digit n = if ltb n 10 then 48 + n else 55 + n

unfoldable pub is_unreserved : ℕ → Bool
is_unreserved c =
    (leb b'0' c && leb c b'9')
    || (leb b'A' c && leb c b'Z')
    || (leb b'a' c && leb c b'z')
    || c == b'-'
    || c == b'_'
    || c == b'.'
    || c == b'~'

unfoldable pub encode_byte : ℕ → Text
unfolding is_unreserved
encode_byte b =
    if b == 32
    then b'+' ∷ []
    else if is_unreserved b
    then b ∷ []
    else b'%' ∷ hex_digit (b / 16) ∷ hex_digit (b % 16) ∷ []

unfoldable pub encode : List ℕ → Text
unfolding encode_byte
encode [] = []
encode (b ∷ bs) = encode_byte b ++ encode bs

abbrev pub Bytes : List ℕ → Type 0
Bytes = All (λ b. b < 256)

hex-hex_digit : (n : ℕ) → n < 16 → hex (hex_digit n) ≡ some n
unfolding hex
hex-hex_digit n small = ground arith

escaped-none : (c h l : ℕ) → (c == b'%') ≡ false → escaped c h l ≡ none
unfolding escaped
escaped-none c h l other = rw other refl

escaped-hex_digit :
    (b : ℕ) → b < 256 → escaped b'%' (hex_digit (b / 16)) (hex_digit (b % 16)) ≡ some b
unfolding escaped
escaped-hex_digit b small =
    rw (hex-hex_digit (b / 16) (omega arith), hex-hex_digit (b % 16) (omega arith))
      (ap some (omega arith))

decode_plain :
    (c : ℕ) (s : List ℕ) → (c == b'%') ≡ false → decode_bytes (c ∷ s) ≡ plain c ∷ decode_bytes s
unfolding decode_bytes
decode_plain c [] other = refl
decode_plain c (h ∷ []) other = refl
decode_plain c (h ∷ l ∷ s) other = rw (escaped-none c h l other, decode_bytes) refl

decode_escape :
    (b : ℕ) (s : List ℕ)
    → b < 256
    → decode_bytes (b'%' ∷ hex_digit (b / 16) ∷ hex_digit (b % 16) ∷ s) ≡ b ∷ decode_bytes s
unfolding decode_bytes
decode_escape b s small = rw (escaped-hex_digit b small, decode_bytes) refl

unreserved_plain : (b : ℕ) → is_unreserved b ≡ true → ((b == b'%') ≡ false) × (plain b ≡ b)
unfolding is_unreserved
unreserved_plain b itself = ground arith

decode_bytes-encode_byte :
    (b : ℕ) (s : List ℕ) → b < 256 → decode_bytes (encode_byte b ++ s) ≡ b ∷ decode_bytes s
unfolding encode_byte
decode_bytes-encode_byte b s small = elim (Bool-cases (b == 32)) [
  | inl blank ↦
      rw blank
        (decode_plain b'+' s refl ∙ ap (λ x. x ∷ decode_bytes s) (sym ((==_iff b 32).0 blank)))
  | inr ink ↦ elim (Bool-cases (is_unreserved b)) [
    | inl itself ↦
        let (no_percent, same) = unreserved_plain b itself in
        rw (ink, itself) (decode_plain b s no_percent ∙ ap (λ x. x ∷ decode_bytes s) same)
    | inr other ↦ rw (ink, other) (decode_escape b s small)
  ]
]

decode_empty : decode_bytes [] ≡ []
unfolding decode_bytes
decode_empty = refl

-- Every list of bytes is read back from its form encoding.
pub decode_bytes-encode : (bs : List ℕ) → Bytes bs → decode_bytes (encode bs) ≡ bs
unfolding encode
decode_bytes-encode [] small = decode_empty
decode_bytes-encode (b ∷ bs) (first, small) =
    decode_bytes-encode_byte b (encode bs) first ∙ ap (λ s. b ∷ s) (decode_bytes-encode bs small)

-- What a form encoding is made of.
abbrev pub FormChar : ℕ → Type 0
FormChar c = (c < 128) × ((c == b'&') ≡ false) × ((c == b'=') ≡ false)

unreserved-FormChar : (c : ℕ) → is_unreserved c ≡ true → FormChar c
unfolding is_unreserved
unreserved-FormChar c itself = (ground arith, ground arith, ground arith)

hex_digit-FormChar : (n : ℕ) → n < 16 → FormChar (hex_digit n)
hex_digit-FormChar n small = (ground arith, ground arith, ground arith)

All-FormChar-append : (s t : Text) → All FormChar s → All FormChar t → All FormChar (s ++ t)
All-FormChar-append [] t first rest = rest
All-FormChar-append (c ∷ s) t (here, first) rest = (here, All-FormChar-append s t first rest)

encode_byte-FormChar : (b : ℕ) → b < 256 → All FormChar (encode_byte b)
unfolding encode_byte
encode_byte-FormChar b small = elim (Bool-cases (b == 32)) [
  | inl blank ↦ rw blank ((omega arith, refl, refl), tt)
  | inr ink ↦ elim (Bool-cases (is_unreserved b)) [
    | inl itself ↦ rw (ink, itself) (unreserved-FormChar b itself, tt)
    | inr other ↦
        rw (ink, other)
          (
            (omega arith, refl, refl),
            (
              hex_digit-FormChar (b / 16) (omega arith),
              (hex_digit-FormChar (b % 16) (omega arith), tt),
            ),
          )
  ]
]

encode-FormChar : (bs : List ℕ) → Bytes bs → All FormChar (encode bs)
unfolding encode
encode-FormChar [] small = tt
encode-FormChar (b ∷ bs) (first, small) =
    All-FormChar-append (encode_byte b) (encode bs) (encode_byte-FormChar b first)
      (encode-FormChar bs small)

abbrev pub Ascii : List ℕ → Type 0
Ascii = All (λ c. c < 128)

Ascii-of_FormChar : (s : Text) → All FormChar s → Ascii s
Ascii-of_FormChar [] form = tt
Ascii-of_FormChar (c ∷ s) (here, form) = (here.0, Ascii-of_FormChar s form)

no_ampersand : (s : Text) → All FormChar s → Free (λ c. c == b'&') s
no_ampersand [] form = tt
no_ampersand (c ∷ s) (here, form) = (here.1, no_ampersand s form)

split_first-at :
    (p : ℕ → Bool) (s : Text) (c : ℕ) (t : Text)
    → Free p s
    → p c ≡ true
    → split_first p (s ++ c ∷ t) ≡ (s, some t)
unfolding split_first
split_first-at p [] c t free cut = rw cut refl
split_first-at p (d ∷ s) c t (here, free) cut = rw (here, split_first-at p s c t free cut) refl

-- The query: the parameter `q`, and what follows it.
abbrev pub q_is : List ℕ → Text
q_is bs = b'q' ∷ b'=' ∷ encode bs

abbrev pub q_and : List ℕ → Option Text → Text
q_and bs none = q_is bs
q_and bs (some t) = q_is bs ++ b'&' ∷ t

abbrev pub with_q : Text → List ℕ → Option Text → Text
with_q path bs more = path ++ b'?' ∷ q_and bs more

no_ampersand_q : (bs : List ℕ) → Bytes bs → Free (λ c. c == b'&') (q_is bs)
no_ampersand_q bs small = (refl, (refl, no_ampersand (encode bs) (encode-FormChar bs small)))

module _ (as_bytes from_utf8_lossy : List ℕ → List ℕ)
    (to_ascii : (s : Text) → Ascii s → as_bytes s ≡ s)
    (of_ascii : (s : List ℕ) → Ascii s → from_utf8_lossy s ≡ s) where
  url_decode-q : url_decode as_bytes from_utf8_lossy (codes "q") ≡ codes "q"
  unfolding url_decode decode_bytes
  url_decode-q =
      ap (λ s. from_utf8_lossy (decode_bytes s)) (to_ascii (codes "q") (omega arith, tt))
      ∙ of_ascii (codes "q") (omega arith, tt)

  url_decode-encode :
      (bs : List ℕ)
      → Bytes bs
      → url_decode as_bytes from_utf8_lossy (encode bs) ≡ from_utf8_lossy bs
  unfolding url_decode
  url_decode-encode bs small =
      ap (λ s. from_utf8_lossy (decode_bytes s))
        (to_ascii (encode bs) (Ascii-of_FormChar (encode bs) (encode-FormChar bs small)))
      ∙ ap from_utf8_lossy (decode_bytes-encode bs small)

  find_param-encode :
      (bs : List ℕ) (others : List Text)
      → Bytes bs
      → find_param as_bytes from_utf8_lossy ((b'q' ∷ b'=' ∷ encode bs) ∷ others) (codes "q")
        ≡ some (from_utf8_lossy bs)
  unfolding find_param split_first equal
  find_param-encode bs others small = rw (url_decode-q, url_decode-encode bs small) refl

  find_in-encode :
      (bs : List ℕ) (more : Option Text)
      → Bytes bs
      → find_in as_bytes from_utf8_lossy (some (q_and bs more)) (codes "q")
        ≡ some (from_utf8_lossy bs)
  find_in-encode bs none small =
      rw (split-Free (λ c. c == b'&') (q_is bs) (no_ampersand_q bs small))
        (find_param-encode bs [] small)
  find_in-encode bs (some t) small =
      rw (split-at (λ c. c == b'&') (q_is bs) b'&' t (no_ampersand_q bs small) refl)
        (find_param-encode bs (split (λ c. c == b'&') t) small)

  -- When a client sends the form encoding of some bytes as the first parameter `q`, whatever
  -- follows it, the log describes the request by the method, the path and these bytes as a text, in
  -- the form of `Debug` and cut to its first 120 characters if it has more, if ASCII is its own
  -- UTF-8 form both ways and the path has no question mark.
  pub describe_request-encode :
      (debug : Text → Text) (method path : Text) (bs : List ℕ) (more : Option Text)
      → Free (λ c. c == b'?') path
      → Bytes bs
      → describe_request as_bytes from_utf8_lossy debug method (with_q path bs more)
        ≡ method ++ (codes " " ++ (path ++ (codes " q=" ++ debug (short (from_utf8_lossy bs) 120))))
  unfolding describe_request
  describe_request-encode debug method path bs more free small =
      rw
        (
          split_first-at (λ c. c == b'?') path b'?' (q_and bs more) free refl,
          find_in-encode bs more small,
        )
        refl
