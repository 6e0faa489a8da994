-- ===== src/Security/Settings/Coherence.antt =====
-- The policy cache never differs from the settings row.
use unifi_netwatcher.Base.{
  ◌≡◌, refl, sym, ap, ◌∙◌, ◌⊎◌, inl, inr, Bool, true, false, Option, none, some, arith,
}
use unifi_netwatcher.Security.Settings.{
  Store, bind_cache, Hasher, SecuritySettings, ensure_security_settings, get_security_policy,
  row_to_policy, SecurityPolicy, cached_or, load_policy,
}
use mathlib.Core.Option.{some-injective}

-- The cache is empty, or it is the policy of the row.
abbrev pub IsCoherent : Store → Type 0
IsCoherent s =
    (s.cache ≡ none)
    ⊎ ((row : SecuritySettings) × ((s.row ≡ some row) × (s.cache ≡ some (row_to_policy row))))

pub bind_cache-IsCoherent :
    (row : SecuritySettings) (s : Store) → s.row ≡ some row → IsCoherent (bind_cache row s)
unfolding bind_cache
bind_cache-IsCoherent row s h = inr (row, (h, refl))

module _ (h : Hasher) where
  pub row-ensure :
      (raced : Option SecuritySettings) (s : Store)
      → (ensure_security_settings h raced s).1.row ≡ some (ensure_security_settings h raced s).0
  unfolding ensure_security_settings bind_cache
  row-ensure raced s = refl

  pub ensure-IsCoherent :
      (raced : Option SecuritySettings) (s : Store)
      → IsCoherent (ensure_security_settings h raced s).1
  unfolding ensure_security_settings
  ensure-IsCoherent raced s = bind_cache-IsCoherent _ _ refl

  load_policy-present :
      (raced : Option SecuritySettings) (s : Store) (row : SecuritySettings)
      → s.row ≡ some row
      → (load_policy h raced s).0 ≡ row_to_policy row
  unfolding ensure_security_settings
  load_policy-present raced s row q = rw q refl

  cached_or-present :
      (raced : Option SecuritySettings) (s : Store) (row : SecuritySettings)
      (c : Option SecurityPolicy)
      → s.cache ≡ c
      → IsCoherent s
      → s.row ≡ some row
      → (cached_or h c s (load_policy h raced s)).0 ≡ row_to_policy row
  cached_or-present raced s row none q k r = load_policy-present raced s row r
  cached_or-present raced s row (some policy) q (inl e) r = absurd (ground arith)
  cached_or-present raced s row (some policy) q (inr (other, (o, e))) r =
      some-injective policy (row_to_policy other) (sym q ∙ e)
      ∙ ap row_to_policy (some-injective other row (sym o ∙ r))

  -- The policy read while a row is stored is that row's.
  pub get_security_policy-present :
      (raced : Option SecuritySettings) (use_cache : Bool) (s : Store) (row : SecuritySettings)
      → IsCoherent s
      → s.row ≡ some row
      → (get_security_policy h raced use_cache s).0 ≡ row_to_policy row
  unfolding get_security_policy
  get_security_policy-present raced true s row k r = cached_or-present raced s row s.cache refl k r
  get_security_policy-present raced false s row k r = load_policy-present raced s row r
