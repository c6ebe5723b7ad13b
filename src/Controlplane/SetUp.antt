-- ===== src/Controlplane/SetUp.antt =====
-- The steps of Signup in a row (controlplane/service.go, Signup), with one failure at most.
use opero.Prelude.{
  ℕ, ◌+◌, ◌≤◌, String, ◌≡◌, Bool, ◌&&◌, Option, none, some, List, ◌∷◌, ◌⊎◌, inl, inr, arith, ap,
  is_some, Option-cases, ◌∙◌, trim_space,
}
use opero.Effects.{ok, err, Link, up, cut, lost, World, Turn, pure, raise, attempt, ◌>>=◌}
use opero.Effects.Error.{Err, internal}
use opero.Effects.Runs.{calm, world}
use opero.Controlplane.Types.{ControlDb, SignupInput, Call}
use opero.Controlplane.Provision.{identifier}
use opero.Controlplane.Service.{Crypto}
use opero.Controlplane.Service
use opero.Controlplane.Signup
use opero.Controlplane.Signup.{slug_of}
use opero.Controlplane.Cleanup.{Unused, Undoable, step-ok, step-err}
use opero.Controlplane.Steps.{
  Newcomer, active_tenant, admin, with_tenant, with_active, fault, unlucky, undo_database,
  create_step, user_step, activate_step,
}

hash_made :
    {o : Option String} {h : String} {w : World ControlDb}
    → o ≡ some h
    → Service.hashed o w ≡ (ok h, w)
unfolding pure
hash_made {w} e = ap (λ o. Service.hashed o w) e

hash_failed :
    {o : Option String} {w : World ControlDb} → o ≡ none → Service.hashed o w ≡ (err internal, w)
unfolding raise
hash_failed {w} e = ap (λ o. Service.hashed o w) e

-- A failed step whose clean-up meets no fault.
fail :
    {A B : Type 0} (name : List ℕ) (i : ℕ) (m : Call A) (f : A → Call B) {w : World ControlDb}
    (e : Err) (l l' : Link) (t k t' k' : ℕ) (db now : ControlDb) (ts : List (Turn ControlDb))
    → fault l + fault l' ≤ 0
    → Undoable name i db now
    → m w ≡ (err e, world now (calm l t k ∷ calm l' t' k' ∷ ts))
    → (attempt m >>= λ r. Signup.or_cleanup i name r >>= f) w ≡ (err e, world db ts)
fail name i m f e up up t k t' k' db now ts h u s = step-err name i m f e t k t' k' db now ts s u
fail name i m f e cut l' t k t' k' db now ts h u s = absurd (ground arith)
fail name i m f e lost l' t k t' k' db now ts h u s = absurd (ground arith)
fail name i m f e up cut t k t' k' db now ts h u s = absurd (ground arith)
fail name i m f e up lost t k t' k' db now ts h u s = absurd (ground arith)

abbrev pub newcomer : SignupInput → List ℕ → List ℕ → ℕ → ℕ → ℕ → String → Newcomer
newcomer inp name slug t k k2 hash = record {
  name = name;
  slug = slug;
  company = inp.company_name;
  email = trim_space inp.admin_email;
  hash = hash;
  t = t;
  k = k;
  k2 = k2;
}

-- Whether a library fails, and how many of the links.
abbrev pub failures : Bool → Bool → Link → Link → Link → Link → Link → ℕ
failures migrated hashed la lb lc ld le =
    unlucky (migrated && hashed) + (fault la + fault lb + fault lc + fault ld + fault le)

module _ (crypto : Crypto) (migrates : List ℕ → Bool) (prefix name slug : List ℕ)
    (inp : SignupInput) (db : ControlDb) (t k k2 : ℕ) (unused : Unused name k k2 db) where
  abbrev people : String → Newcomer
  people = newcomer inp name slug t k k2

  module _ (la lb lc ld le : Link) (t1 k1 t2 t3 k3 t4 k4 t5 k5 : ℕ)
      (rest : List (Turn ControlDb)) where
    abbrev after_tenant : World ControlDb
    after_tenant =
        world (with_tenant (people "") db)
          (calm la t1 k1 ∷ calm lb t2 k2 ∷ calm lc t3 k3 ∷ calm ld t4 k4 ∷ calm le t5 k5 ∷ rest)

    pub set_up-Cleans :
        failures
            (migrates (identifier name))
            (is_some (crypto.hash_password inp.admin_password))
            la
            lb
            lc
            ld
            le
          ≤ 1
        → let r = Signup.set_up crypto migrates prefix inp k name after_tenant in
          ((hash : String) × (crypto.hash_password inp.admin_password ≡ some hash)
            × (r ≡ (
              ok (admin (people hash) t2, active_tenant (people hash) t3),
              world (with_active (people hash) db t2 t3) (calm ld t4 k4 ∷ calm le t5 k5 ∷ rest),
            )))
          ⊎ ((e : Err) × (ts : List (Turn ControlDb)) × (r ≡ (err e, world db ts)))
    unfolding Signup.set_up pure raise
    set_up-Cleans h =
        elim (create_step crypto.fold migrates (people "") db unused la t1 k1
          (calm lb t2 k2 ∷ calm lc t3 k3 ∷ calm ld t4 k4 ∷ calm le t5 k5 ∷ rest)) [
            | inr (some_fault, e, now, undo, made) ↦
                inr (e, _, fail name k _ _ e lb lc t2 k2 t3 k3 db now _ (ground arith) undo made)
            | inl made ↦ elim (Option-cases (crypto.hash_password inp.admin_password)) [
              | inl no_hash ↦ inr (
                internal,
                _,
                step-ok name k _ _ made
                    ∙ fail name k _ _ internal lb lc t2 k2 t3 k3 db _ _ (ground (arith, no_hash))
                        (undo_database crypto.fold migrates (people "") db unused)
                        (hash_failed no_hash),
              )
              | inr (hash, hashed) ↦
                  elim (user_step crypto.fold migrates (people hash) db unused lb t2
                    (calm lc t3 k3 ∷ calm ld t4 k4 ∷ calm le t5 k5 ∷ rest)) [
                      | inr (some_fault, e, now, undo, failed) ↦ inr (
                        e,
                        _,
                        step-ok name k _ _ made
                            ∙ step-ok name k _ _ (hash_made hashed)
                            ∙ fail name k _ _ e lc ld t3 k3 t4 k4 db now _ (ground arith) undo
                                failed,
                      )
                      | inl joined ↦
                          elim (activate_step crypto.fold migrates (people hash) db unused lc t2 t3
                            k3 (calm ld t4 k4 ∷ calm le t5 k5 ∷ rest)) [
                              | inr (some_fault, e, now, undo, failed) ↦ inr (
                                e,
                                _,
                                step-ok name k _ _ made
                                    ∙ step-ok name k _ _ (hash_made hashed)
                                    ∙ step-ok name k _ _ joined
                                    ∙ fail name k _ _ e ld le t4 k4 t5 k5 db now _ (ground arith)
                                        undo failed,
                              )
                              | inl done ↦ inl (
                                hash,
                                hashed,
                                step-ok name k _ _ made
                                    ∙ step-ok name k _ _ (hash_made hashed)
                                    ∙ step-ok name k _ _ joined
                                    ∙ step-ok name k _ _ done,
                              )
                            ]
                    ]
            ]
          ]
