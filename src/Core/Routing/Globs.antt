-- ===== src/Core/Routing/Globs.antt =====
-- `glob_match` of crates/core/src/routing.rs against the patterns that it is meant to accept.
use link_pilot.Prelude.{
  String, ◌≡◌, ◌↔◌, ◌⊎◌, true, some, none, sym, ◌∙◌, ap, ◌⧺◌, arith, eq_iff, Option-cases, inl, inr,
  strip_prefix, strip_suffix, strip_prefix-eq-some, strip_prefix-append, strip_suffix-eq-some,
  strip_suffix-append, starts_with_iff, ends_with_iff, starts_with, ends_with, ◌==◌,
}
use link_pilot.Core.Routing.Matching.{glob_match}

-- A pattern that begins with `*.`.
abbrev pub IsDomain : String → Type 0
IsDomain pattern = (rest : String) × (pattern ≡ "*." ⧺ rest)

-- A pattern that ends in `*`.
abbrev pub IsStem : String → Type 0
IsStem pattern = (rest : String) × (pattern ≡ rest ⧺ "*")

-- `Globs pattern value`: `*.rest` accepts `rest` and what ends in `.rest`; otherwise `rest*` accepts
-- what begins with `rest`; any other pattern accepts itself.
pub data Globs (pattern value : String) : Type 0 where
  apex : (rest : String) → pattern ≡ "*." ⧺ rest → value ≡ rest → Globs pattern value
  subdomain :
      (rest sub : String) → pattern ≡ "*." ⧺ rest → value ≡ sub ⧺ ("." ⧺ rest) → Globs pattern value
  stem :
      (rest tail : String)
      → ¬ IsDomain pattern
      → pattern ≡ rest ⧺ "*"
      → value ≡ rest ⧺ tail
      → Globs pattern value
  exact : ¬ IsDomain pattern → ¬ IsStem pattern → value ≡ pattern → Globs pattern value

module _ (pattern value : String) where
  IsDomain-refuted : strip_prefix pattern "*." ≡ none → ¬ IsDomain pattern
  IsDomain-refuted missing (rest, e) =
      cc (strip_prefix-append "*." rest, ap (λ s. strip_prefix s "*.") e)

  IsStem-refuted : strip_suffix pattern "*" ≡ none → ¬ IsStem pattern
  IsStem-refuted missing (rest, e) =
      cc (strip_suffix-append rest "*", ap (λ s. strip_suffix s "*") e)

  glob_match-domain :
      (rest : String)
      → strip_prefix pattern "*." ≡ some rest
      → (glob_match pattern value ≡ true) ↔ ((value ≡ rest) ⊎ (ends_with value ("." ⧺ rest) ≡ true))
  unfolding glob_match
  glob_match-domain rest found = rw (found, glob_match) (ground (arith, eq_iff value rest))

  glob_match-stem :
      (rest : String)
      → strip_prefix pattern "*." ≡ none
      → strip_suffix pattern "*" ≡ some rest
      → glob_match pattern value ≡ starts_with value rest
  unfolding glob_match
  glob_match-stem rest missing found = rw (missing, found, glob_match)

  glob_match-exact :
      strip_prefix pattern "*." ≡ none
      → strip_suffix pattern "*" ≡ none
      → glob_match pattern value ≡ (pattern == value)
  unfolding glob_match
  glob_match-exact missing plain = rw (missing, plain, glob_match)

  Globs-sound : glob_match pattern value ≡ true → Globs pattern value
  Globs-sound h = elim (Option-cases (strip_prefix pattern "*.")) [
    | inl missing ↦ elim (Option-cases (strip_suffix pattern "*")) [
      | inl plain ↦
          exact (IsDomain-refuted missing) (IsStem-refuted plain)
            (sym ((eq_iff pattern value).0 (sym (glob_match-exact missing plain) ∙ h)))
      | inr (rest, found) ↦
          let (tail, e) =
            (starts_with_iff value rest).0 (sym (glob_match-stem rest missing found) ∙ h) in
          stem rest tail (IsDomain-refuted missing) (strip_suffix-eq-some pattern "*" found) e
    ]
    | inr (rest, found) ↦ elim ((glob_match-domain rest found).0 h) [
      | inl same ↦ apex rest (strip_prefix-eq-some pattern "*." found) same
      | inr below ↦
          let (sub, e) = (ends_with_iff value ("." ⧺ rest)).0 below in
          subdomain rest sub (strip_prefix-eq-some pattern "*." found) e
    ]
  ]

  found_domain : (rest : String) → pattern ≡ "*." ⧺ rest → strip_prefix pattern "*." ≡ some rest
  found_domain rest e = ap (λ s. strip_prefix s "*.") e ∙ strip_prefix-append "*." rest

  missing_domain : ¬ IsDomain pattern → strip_prefix pattern "*." ≡ none
  missing_domain h = elim (Option-cases (strip_prefix pattern "*.")) [
    | inl missing ↦ missing
    | inr (rest, found) ↦ absurd (h (rest, strip_prefix-eq-some pattern "*." found))
  ]

  missing_stem : ¬ IsStem pattern → strip_suffix pattern "*" ≡ none
  missing_stem h = elim (Option-cases (strip_suffix pattern "*")) [
    | inl missing ↦ missing
    | inr (rest, found) ↦ absurd (h (rest, strip_suffix-eq-some pattern "*" found))
  ]

  found_stem : (rest : String) → pattern ≡ rest ⧺ "*" → strip_suffix pattern "*" ≡ some rest
  found_stem rest e = ap (λ s. strip_suffix s "*") e ∙ strip_suffix-append rest "*"

  Globs-complete : Globs pattern value → glob_match pattern value ≡ true
  Globs-complete (apex rest e same) = (glob_match-domain rest (found_domain rest e)).1 (inl same)
  Globs-complete (subdomain rest sub e below) =
      (glob_match-domain rest (found_domain rest e)).1
        (inr ((ends_with_iff value ("." ⧺ rest)).1 (sub, below)))
  Globs-complete (stem rest tail plain e begins) =
      glob_match-stem rest (missing_domain plain) (found_stem rest e)
      ∙ (starts_with_iff value rest).1 (tail, begins)
  Globs-complete (exact plain whole same) =
      glob_match-exact (missing_domain plain) (missing_stem whole)
      ∙ (eq_iff pattern value).1 (sym same)

  -- `glob_match` accepts a value exactly when `Globs` does.
  pub glob_match_iff : (glob_match pattern value ≡ true) ↔ Globs pattern value
  glob_match_iff = (Globs-sound, Globs-complete)
