-- ===== src/Notifications/Templates/Versions.antt =====
-- The versions of a template in backend/app/notifications/service.py: their numbers, and what is
-- never stored.
use price_checker.Base.{
  ℕ, true, false, ◌+◌, ◌≤◌, ◌<◌, List, [], ◌∷◌, ◌≡◌, refl, subst, sym, arith, Distinct,
  Distinct-append, All, All-append, All-map, any, ◌==◌, ◌&&◌, inl, inr, Bool-cases,
}
use price_checker.Errors.{Result, ok, err}
use price_checker.Models.Notification.{NotificationTemplateVersion, is_alimtalk, is_marketing}
use price_checker.Database.{
  Db, Session, Orm, IsReadOnly, read_to, flush_to, query_ok, ◌>>=◌, pure, lift, query,
}
use price_checker.Notifications.Templates.{
  NotificationTemplateVersionCreate, same_version, add_version, get_template_or_404, max_version,
  next_version, validate_channel_purpose, new_version, create_version,
}

below_max :
    (i : ℕ) (vs : List NotificationTemplateVersion)
    → All (λ v. (v.template_id == i) ≡ true → v.version ≤ max_version i vs) vs
unfolding max_version
below_max i [] = tt
below_max i (v ∷ vs) =
    ((λ h. ground arith), All-map _ _ vs (λ w f h. ground (arith, f h)) (below_max i vs))

get_template_or_404-IsReadOnly : (t i : ℕ) → IsReadOnly (get_template_or_404 t i)
unfolding get_template_or_404 ◌>>=◌
get_template_or_404-IsReadOnly t i s = ground arith

-- Stored versions are numbered apart and none is a marketing message by Alimtalk.
pub record IsValid (d : Db) : Type 0 where
  pub numbers : Distinct same_version d.template_versions
  pub allowed :
      All (λ v. (is_alimtalk v.channel && is_marketing v.purpose) ≡ false) d.template_versions

-- How a new version ends: stored, with a number above the template's others, or refused with
-- the tables as they were.
abbrev pub Ends : Session → Result NotificationTemplateVersion → Session → Type 0
Ends s (ok v) s' =
    (s'.db ≡ add_version v s.db)
    × All (λ w. (w.template_id == v.template_id) ≡ true → w.version < v.version)
        s.db.template_versions
    × IsValid s'.db
Ends s (err e) s' = s' ≡ s

higher :
    (i n : ℕ) (vs : List NotificationTemplateVersion)
    → n ≡ max_version i vs + 1
    → All (λ w. (w.template_id == i) ≡ true → w.version < n) vs
higher i n vs e = All-map _ _ vs (λ w f h. omega (arith, f h)) (below_max i vs)

no_clash :
    (v : NotificationTemplateVersion) (vs : List NotificationTemplateVersion)
    → All (λ w. (w.template_id == v.template_id) ≡ true → w.version < v.version) vs
    → any (λ w. same_version w v) vs ≡ false
no_clash v [] h = refl
no_clash v (w ∷ vs) h = elim (Bool-cases (w.template_id == v.template_id)) [
  | inl t ↦ ground (arith, h.0 t, no_clash v vs h.1)
  | inr f ↦ ground (arith, no_clash v vs h.1)
]

module _ (orm : Orm) (t : ℕ) (p : NotificationTemplateVersionCreate) where
  -- The columns of a new version that matter here.
  stored :
      (i n : ℕ) (d : Db)
      → let v = new_version orm t i n p d in
        (v.template_id ≡ i) × (v.version ≡ n) × (v.channel ≡ p.channel) × (v.purpose ≡ p.purpose)
  unfolding new_version
  stored i n d = (refl, refl, refl, refl)

  validate_ok :
      (a : Unit {0})
      → validate_channel_purpose p.channel p.purpose ≡ ok a
      → (is_alimtalk p.channel && is_marketing p.purpose) ≡ false
  unfolding validate_channel_purpose
  validate_ok a h = ground arith

  add_version-IsValid :
      (i n : ℕ) (d : Db) (v : NotificationTemplateVersion)
      → v ≡ new_version orm t i n p d
      → n ≡ max_version i d.template_versions + 1
      → (is_alimtalk p.channel && is_marketing p.purpose) ≡ false
      → IsValid d
      → All
          (λ w. (w.template_id == v.template_id) ≡ true → w.version < v.version)
          d.template_versions
        × IsValid (add_version v d)
  add_version-IsValid i n d v e number allowed valid =
      let (template, version, channel, purpose) = stored i n d in
      let above : All (λ w. (w.template_id == v.template_id) ≡ true → w.version < v.version)
          d.template_versions =
        subst
          (λ x.
            All (λ w. (w.template_id == x.template_id) ≡ true → w.version < x.version)
              d.template_versions)
          (sym e) (rw (template, version) (higher i n d.template_versions number)) in
      (
        above,
        record {
          numbers =
              Distinct-append same_version v d.template_versions
                (no_clash v d.template_versions above) valid.numbers;
          allowed = All-append _ d.template_versions (v ∷ []) valid.allowed (
            subst (λ x. (is_alimtalk x.channel && is_marketing x.purpose) ≡ false) (sym e)
                (rw (channel, purpose) allowed),
            tt,
          );
        },
      )

  next_version-IsReadOnly : (i : ℕ) → IsReadOnly (next_version i)
  unfolding next_version
  next_version-IsReadOnly i s = refl

  next_version_ok :
      (i n : ℕ) (s : Session)
      → (next_version i s).0 ≡ ok n
      → n ≡ max_version i s.db.template_versions + 1
  unfolding next_version
  next_version_ok i n s h = ground arith

  -- Where the stored versions are numbered apart and none is a marketing message by Alimtalk,
  -- a call to create a version either adds one row, with a number above all of its
  -- template's, after which the same holds; or it raises and changes nothing.
  pub create_version-Ends :
      (i : ℕ) (s : Session)
      → IsValid s.db
      → let (result, s') = create_version orm t i p s in Ends s result s'
  unfolding create_version
  create_version-Ends i s valid =
      read_to (Ends s) (get_template_or_404 t i) _ s (get_template_or_404-IsReadOnly t i)
        (λ _. refl)
        λ template _.
          read_to (Ends s) (lift (validate_channel_purpose p.channel p.purpose)) _ s (λ _. refl)
            (λ _. refl)
            λ a allowed.
              read_to (Ends s) (next_version template.id) _ s (next_version-IsReadOnly template.id)
                (λ _. refl)
                λ n number.
                  read_to (Ends s) (query (new_version orm t template.id n p)) _ s (λ _. refl)
                    (λ _. refl)
                    λ v e.
                      let (above, after) =
                        add_version-IsValid template.id n s.db v
                          (query_ok (new_version orm t template.id n p) s v e)
                          (next_version_ok template.id n s number) (validate_ok a allowed) valid in
                      flush_to orm (Ends s) _ (add_version v) (pure v) s (λ _. refl)
                        (λ _ clash. absurd (cc (clash, no_clash v s.db.template_versions above)))
                        (λ _ _. (refl, above, after))
