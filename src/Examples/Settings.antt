-- ===== src/Examples/Settings.antt =====
-- How the programs of examples read their settings from the environment. A text is its list of code
-- points; the parsers of the libraries are a parameter.
pub mod Entries
use pump_swap_sdk.Prelude.{
  ℕ, Bool, ◌&&◌, ◌||◌, List, [], ◌∷◌, Option, none, some, leb, ◌==◌, if◌then◌else◌,
}
use pump_swap_sdk.Prelude.Outcome.{Result, ok, ◌>>=◌, ok_or, not_set, not_parsed}

-- An environment variable.
abbrev pub Variable : Type 0
Variable = Option (List ℕ)

pub record Parsers (F K : Type 0) : Type 0 where
  -- `Pubkey::from_str`, `f64::from_str` and `sol_str_to_lamports`
  pub to_pubkey : List ℕ → Option ℕ
  pub to_f64 : List ℕ → Option F
  pub to_lamports : List ℕ → Option ℕ
  -- `Keypair::from_base58_string`, which panics on a text that is no key pair
  pub from_base58_string : List ℕ → Option K
  -- `bs58::decode`, `Keypair::try_from`, and the public key of a pair
  pub base58_bytes : List ℕ → Option (List ℕ)
  pub to_keypair : List ℕ → Option K
  pub pubkey_of : K → ℕ

-- `std::env::var(…).context(…)?`
abbrev pub required : Variable → Result (List ℕ)
required variable = ok_or not_set variable

-- `pk`: a public key from the environment.
abbrev pub required_key : {F K : Type 0} → Parsers F K → Variable → Result ℕ
required_key parsers variable = do
  text ← required variable
  ok_or not_parsed (parsers.to_pubkey text)

-- `env::var(…).ok().and_then(|s| s.parse().ok()).unwrap_or(…)`
abbrev pub parsed_or : {A : Type 0} → (List ℕ → Option A) → A → Variable → A
parsed_or parse default none = default
parsed_or parse default (some text) = elim (parse text) [ none ↦ default | some a ↦ a ]

-- A SOL amount, or a default when the variable is not set.
abbrev pub lamports_or : {F K : Type 0} → Parsers F K → ℕ → Variable → Result ℕ
lamports_or parsers default none = ok default
lamports_or parsers default (some text) = ok_or not_parsed (parsers.to_lamports text)

-- `LAMPORTS_PER_SOL` of solana_native_token
abbrev pub lamports_per_sol : ℕ
lamports_per_sol = 1_000_000_000

-- `char::is_whitespace`
unfoldable pub is_whitespace : ℕ → Bool
is_whitespace c =
    (leb 9 c && leb c 13)
    || (c == 32)
    || (c == 133)
    || (c == 160)
    || (c == 5_760)
    || (leb 8_192 c && leb c 8_202)
    || (c == 8_232)
    || (c == 8_233)
    || (c == 8_239)
    || (c == 8_287)
    || (c == 12_288)

-- `str::split` at a character.
abbrev pub in_front : ℕ → List (List ℕ) → List (List ℕ)
in_front c [] = (c ∷ []) ∷ []
in_front c (part ∷ parts) = (c ∷ part) ∷ parts

unfoldable pub split : ℕ → List ℕ → List (List ℕ)
split separator [] = [] ∷ []
split separator (c ∷ cs) =
    let rest = split separator cs in if c == separator then [] ∷ rest else in_front c rest

-- `str::trim`
unfoldable pub trim_start : List ℕ → List ℕ
trim_start [] = []
trim_start (c ∷ cs) = let rest = trim_start cs in if is_whitespace c then rest else c ∷ cs

abbrev pub if_blank : ℕ → List ℕ → List ℕ
if_blank c [] = if is_whitespace c then [] else c ∷ []
if_blank c (kept ∷ more) = c ∷ kept ∷ more

unfoldable pub trim_end : List ℕ → List ℕ
trim_end [] = []
trim_end (c ∷ cs) = if_blank c (trim_end cs)

abbrev pub trim : List ℕ → List ℕ
trim text = trim_end (trim_start text)

-- `.map(str::trim).filter(|s| !s.is_empty())` over the parts.
unfoldable pub trimmed : List (List ℕ) → List (List ℕ)
trimmed [] = []
trimmed (part ∷ parts) =
    let rest = trimmed parts in elim (trim part) [ [] ↦ rest | c ∷ cs ↦ (c ∷ cs) ∷ rest ]

-- The entries of a list that is separated by commas.
abbrev pub entries : List ℕ → List (List ℕ)
entries csv = trimmed (split b',' csv)
