-- ===== src/Credit/Daily/Due.antt =====
-- When daily credits are due to a user.
use genioai_wxmini_server.Base.{
  ℤ, Bool, true, false, ◌≡◌, refl, leb_ℤ, Option, none, some, some_eq, ◌⊎◌, subst, sym, ap, ◌∙◌,
  ltb_ℤ, pos, arith, Bool-cases, inl, inr, ◌<ℤ◌,
}
use genioai_wxmini_server.Credit.Daily.{
  Config, Service, is_feature_enabled, is_vip_user, get_daily_credits_amount,
}

-- The amount that a configured value stands for: itself if it is positive, otherwise 30.
abbrev pub IsAmount : Option ℤ → ℤ → Type 0
IsAmount configured a =
    ((configured ≡ some a) × (pos 0 <ℤ a))
    ⊎ ((a ≡ pos 30) × (¬ ((x : ℤ) × (configured ≡ some x) × (pos 0 <ℤ x))))

-- The subscription service answers, and with a level above 0.
abbrev pub IsKnownMember : Service → Type 0
IsKnownMember s = (level : ℤ) × (s.subscribe_service ≡ some (some level)) × (pos 0 <ℤ level)

-- The configuration can be read and has the feature on, the user is not known as a member, and the
-- amount is the one to grant.
abbrev pub IsDue : Service → ℤ → Type 0
IsDue s a =
    (c : Config) × (s.config_service ≡ some c)
    × (c.enabled ≡ some true)
    × (¬ IsKnownMember s)
    × IsAmount c.amount a

pub not_above : (x y : ℤ) → some x ≡ some y → leb_ℤ x (pos 0) ≡ true → ¬ (pos 0 <ℤ y)
not_above x y q e = below (subst (λ z. leb_ℤ z (pos 0) ≡ true) (some_eq x y q) e)
  where
    below : leb_ℤ y (pos 0) ≡ true → ¬ (pos 0 <ℤ y)
    below h p = ground arith

pub positive_of_test : (a : ℤ) → leb_ℤ a (pos 0) ≡ false → pos 0 <ℤ a
positive_of_test a h = ground arith

pub IsAmount-of_config :
    (c : Config) (o : Option ℤ)
    → c.amount ≡ o
    → IsAmount c.amount (get_daily_credits_amount (some c))
IsAmount-of_config c none h = simp h (inr (refl, λ z. none_some z.1))
  where
    none_some : {x : ℤ} → ◌≡◌ {A = Option ℤ} none (some x) → ⊥
    none_some q = ground arith
IsAmount-of_config c (some x) h = elim (Bool-cases (leb_ℤ x (pos 0))) [
  | inl e ↦ simp (h, e) (inr (refl, λ z. not_above x z.0 z.1 e z.2))
  | inr e ↦ simp (h, e) (inl (refl, positive_of_test x e))
]

pub IsAmount-positive : (o : Option ℤ) (a : ℤ) → IsAmount o a → leb_ℤ a (pos 0) ≡ false
IsAmount-positive o a (inl (e, p)) = ground arith
IsAmount-positive o a (inr (e, n)) = rw e refl

pub not_vip :
    (s : Service) (level : ℤ)
    → is_vip_user s.subscribe_service ≡ false
    → s.subscribe_service ≡ some (some level)
    → ¬ (pos 0 <ℤ level)
not_vip s level h e p = at (ap is_vip_user (sym e) ∙ h)
  where
    at : ltb_ℤ (pos 0) level ≡ false → ⊥
    at q = ground arith

pub known_member : (s : Service) → is_vip_user s.subscribe_service ≡ true → IsKnownMember s
known_member s h = at s.subscribe_service refl h
  where
    at : (o : Option (Option ℤ)) → s.subscribe_service ≡ o → is_vip_user o ≡ true → IsKnownMember s
    at none e v = absurd (ground arith)
    at (some none) e v = absurd (ground arith)
    at (some (some level)) e v = (level, e, ground arith)

pub enabled_of :
    (o : Option Config)
    → is_feature_enabled o ≡ true
    → (c : Config) × (o ≡ some c) × (c.enabled ≡ some true)
enabled_of none h = absurd (ground arith)
enabled_of (some c) h = (c, refl, at c.enabled h)
  where
    at : (e : Option Bool) → elim e [ none ↦ false | some b ↦ b ] ≡ true → e ≡ some true
    at none k = absurd (ground arith)
    at (some b) k = ap (λ z. some z) k

pub is_feature_enabled_of :
    (s : Service) (a : ℤ) → IsDue s a → is_feature_enabled s.config_service ≡ true
is_feature_enabled_of s a (c, e, h, n, m) =
    ap is_feature_enabled e ∙ ap (λ z. elim z [ none ↦ false | some b ↦ b ]) h

pub IsDue-of_config :
    (s : Service)
    → is_feature_enabled s.config_service ≡ true
    → is_vip_user s.subscribe_service ≡ false
    → IsDue s (get_daily_credits_amount s.config_service)
IsDue-of_config s on no_vip =
    let (c, e, enabled) = enabled_of s.config_service on in
    (
      c,
      e,
      enabled,
      (λ z. not_vip s z.0 no_vip z.1 z.2),
      subst (λ o. IsAmount c.amount (get_daily_credits_amount o)) (sym e)
          (IsAmount-of_config c c.amount refl),
    )
