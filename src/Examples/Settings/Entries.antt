-- ===== src/Examples/Settings/Entries.antt =====
-- Which entries the programs of examples read from a list that is separated by commas.
use pump_swap_sdk.Prelude.{
  ℕ, ◌≡◌, refl, ap, ◌∙◌, true, false, Bool-cases, inl, inr, List, [], ◌∷◌, ◌++◌, map, All, ◌==◌,
  ==_iff,
}
use pump_swap_sdk.Examples.Settings.{
  is_whitespace, split, trim_start, trim_end, if_blank, trim, trimmed, entries,
}

-- An entry with the blanks around it.
pub record Padded : Type 0 where
  pub before : List ℕ
  pub first : ℕ
  pub others : List ℕ
  pub after : List ℕ

abbrev pub entry_of : Padded → List ℕ
entry_of p = p.first ∷ p.others

abbrev pub text_of : Padded → List ℕ
text_of p = p.before ++ (entry_of p ++ p.after)

abbrev pub Blank : List ℕ → Type 0
Blank cs = All (λ c. is_whitespace c ≡ true) cs

-- The entry has no comma and no blank at its ends.
pub record IsEntry (p : Padded) : Type 0 where
  pub blank_before : Blank p.before
  pub blank_after : Blank p.after
  pub starts : is_whitespace p.first ≡ false
  pub ends : trim_end (entry_of p) ≡ entry_of p
  pub no_comma : All (λ c. (c == b',') ≡ false) (entry_of p)

-- The texts with commas between them.
abbrev pub joined : List Padded → List ℕ
joined [] = []
joined (p ∷ []) = text_of p
joined (p ∷ q ∷ ps) = text_of p ++ (b',' ∷ joined (q ∷ ps))

false≢true : ¬ (false ≡ true)
false≢true h = cc

comma-visible : is_whitespace b',' ≡ false
unfolding is_whitespace
comma-visible = refl

blank-no_comma : (c : ℕ) → is_whitespace c ≡ true → (c == b',') ≡ false
blank-no_comma c h = elim (Bool-cases (c == b',')) [
  | inl same ↦ absurd (false≢true (rw ((==_iff c b',').0 same, comma-visible) at h))
  | inr other ↦ other
]

All-append-no_comma :
    (xs ys : List ℕ)
    → All (λ c. (c == b',') ≡ false) xs
    → All (λ c. (c == b',') ≡ false) ys
    → All (λ c. (c == b',') ≡ false) (xs ++ ys)
All-append-no_comma [] ys h k = k
All-append-no_comma (x ∷ xs) ys h k = (h.0, All-append-no_comma xs ys h.1 k)

Blank-no_comma : (cs : List ℕ) → Blank cs → All (λ c. (c == b',') ≡ false) cs
Blank-no_comma [] h = tt
Blank-no_comma (c ∷ cs) h = (blank-no_comma c h.0, Blank-no_comma cs h.1)

split-no_comma : (cs : List ℕ) → All (λ c. (c == b',') ≡ false) cs → split b',' cs ≡ cs ∷ []
unfolding split
split-no_comma [] h = refl
split-no_comma (c ∷ cs) h = rw (h.0, split-no_comma cs h.1) refl

split-comma :
    (cs rest : List ℕ)
    → All (λ c. (c == b',') ≡ false) cs
    → split b',' (cs ++ (b',' ∷ rest)) ≡ cs ∷ split b',' rest
unfolding split
split-comma [] rest h = refl
split-comma (c ∷ cs) rest h = rw (h.0, split-comma cs rest h.1) refl

text-no_comma : (p : Padded) → IsEntry p → All (λ c. (c == b',') ≡ false) (text_of p)
text-no_comma p h =
    All-append-no_comma p.before _ (Blank-no_comma p.before h.blank_before)
      (All-append-no_comma (entry_of p) p.after h.no_comma (Blank-no_comma p.after h.blank_after))

split-joined :
    (p : Padded) (ps : List Padded)
    → All IsEntry (p ∷ ps)
    → split b',' (joined (p ∷ ps)) ≡ map text_of (p ∷ ps)
split-joined p [] h = split-no_comma (text_of p) (text-no_comma p h.0)
split-joined p (q ∷ ps) h =
    split-comma (text_of p) _ (text-no_comma p h.0) ∙ ap (◌∷◌ (text_of p)) (split-joined q ps h.1)

trim_start-Blank :
    (before rest : List ℕ) → Blank before → trim_start (before ++ rest) ≡ trim_start rest
unfolding trim_start
trim_start-Blank [] rest h = refl
trim_start-Blank (c ∷ cs) rest h = rw (h.0) (trim_start-Blank cs rest h.1)

trim_end-Blank : (after : List ℕ) → Blank after → trim_end after ≡ []
unfolding trim_end
trim_end-Blank [] h = refl
trim_end-Blank (c ∷ cs) h = rw (trim_end-Blank cs h.1, h.0) refl

trim_end-append : (cs after : List ℕ) → Blank after → trim_end (cs ++ after) ≡ trim_end cs
unfolding trim_end
trim_end-append [] after h = trim_end-Blank after h
trim_end-append (c ∷ cs) after h = ap (if_blank c) (trim_end-append cs after h)

trim_start-entry :
    (p : Padded) → IsEntry p → trim_start (entry_of p ++ p.after) ≡ entry_of p ++ p.after
unfolding trim_start
trim_start-entry p h = rw (h.starts) refl

trim-text_of : (p : Padded) → IsEntry p → trim (text_of p) ≡ entry_of p
trim-text_of p h =
    ap trim_end (trim_start-Blank p.before _ h.blank_before ∙ trim_start-entry p h)
    ∙ (trim_end-append (entry_of p) p.after h.blank_after ∙ h.ends)

trimmed-map : (ps : List Padded) → All IsEntry ps → trimmed (map text_of ps) ≡ map entry_of ps
unfolding trimmed
trimmed-map [] h = refl
trimmed-map (p ∷ ps) h =
    rw (trim-text_of p h.0, trimmed) (ap (◌∷◌ (entry_of p)) (trimmed-map ps h.1))

-- Entries without a comma and without a blank at their ends are read back, in order, from a text that
-- has commas between them and blanks around them.
pub entries-joined :
    (p : Padded) (ps : List Padded)
    → All IsEntry (p ∷ ps)
    → entries (joined (p ∷ ps)) ≡ map entry_of (p ∷ ps)
entries-joined p ps h = ap trimmed (split-joined p ps h) ∙ trimmed-map (p ∷ ps) h
