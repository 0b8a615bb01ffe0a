-- ===== src/Guards/Decided.antt =====
-- packages/server/src/auth/rbac.ts: which requests are authenticated, and which name an instance that is found.
use remote_sql_agent.Prelude.{
  ℕ, ◌≡◌, ◌≢◌, refl, sym, ap, subst, ◌∙◌, ◌⊎◌, inl, inr, ◌↔◌, Bool-cases, Option-cases, true, false,
  String, str_eq, eq_iff, Option, some, arith,
}
use remote_sql_agent.Guards.{
  Session, Lookup, tagged, missing, failed, is_mutating, csrf_ok, GuardDeps, Request, known,
  rejected, authenticate, resolve_environment,
}

-- The methods that change state.
abbrev pub Mutates : String → Type 0
Mutates method = (method ≡ "POST") ⊎ ((method ≡ "PUT") ⊎ ((method ≡ "PATCH") ⊎ (method ≡ "DELETE")))

-- The header of the request carries a token that is not empty and matches the session's.
abbrev pub HasToken : GuardDeps → Request → Session → Type 0
HasToken deps r s =
    (token : String) × (r.csrf_header ≡ some token)
    × (token ≢ "")
    × (deps.token_matches token s.csrf_token_hash ≡ true)

-- The cookie is the session's, and a request that changes state has its token.
abbrev pub IsAuthenticated : GuardDeps → Request → Session → Type 0
IsAuthenticated deps r s =
    (deps.resolve_session r.session_cookie ≡ some s) × ((¬ Mutates r.method) ⊎ HasToken deps r s)

-- The request names an instance, and the lookup finds it with this tag.
abbrev pub IsFor : GuardDeps → Request → Option String → Type 0
IsFor deps r tag =
    (i : String) × (r.instance_id ≡ some i)
    × (i ≢ "")
    × (deps.environment_of_instance i ≡ tagged tag)

pub rejected-ne-known : (n : ℕ) (error : String) (s : Session) → rejected n error ≢ known s
rejected-ne-known n error s e = cc

pub known-injective : (s t : Session) → known s ≡ known t → s ≡ t
known-injective s t e = cc

is_mutating_iff : (method : String) → (is_mutating method ≡ true) ↔ Mutates method
is_mutating_iff method = ground (
  arith,
  eq_iff method "POST",
  eq_iff method "PUT",
  eq_iff method "PATCH",
  eq_iff method "DELETE",
)

csrf_ok_iff :
    (deps : GuardDeps) (r : Request) (s : Session)
    → (csrf_ok deps r.csrf_header s.csrf_token_hash ≡ true) ↔ HasToken deps r s
csrf_ok_iff deps r s = elim (Option-cases r.csrf_header) [
  | inl e ↦ (
    λ h. absurd (ground (arith, e, h)),
    λ (token, there, _, _). absurd (ground (arith, e, there)),
  )
  | inr (t, e) ↦ (
    λ h. (t, e, λ blank. absurd (ground (arith, e, h, eq_iff t "", blank)), ground (arith, e, h)),
    λ (token, there, filled, hit).
        let same : token ≡ t = ground (arith, e, there) in
        let filled' : str_eq t "" ≡ false = ground (arith, eq_iff t "", same, filled) in
        rw (e, filled') (subst (λ x. deps.token_matches x s.csrf_token_hash ≡ true) same hit),
  )
]

pub authenticate_iff :
    (deps : GuardDeps) (r : Request) (s : Session)
    → (authenticate deps r ≡ known s) ↔ IsAuthenticated deps r s
unfolding authenticate
authenticate_iff deps r s = elim (Option-cases (deps.resolve_session r.session_cookie)) [
  | inl e ↦ (
    λ h. absurd (rejected-ne-known 401 "Unauthenticated" s (rw (e, authenticate) at h)),
    λ (there, _). absurd (ground (arith, e, there)),
  )
  | inr (t, e) ↦ elim (Bool-cases (is_mutating r.method)) [
    | inr reads ↦ (
      λ h.
          let h' : known t ≡ known s = rw (e, reads, authenticate) at h in
          (
            e ∙ ap some (known-injective t s h'),
            inl (λ w. absurd (ground (arith, reads, (is_mutating_iff r.method).1 w))),
          ),
      λ (there, _).
          let same : t ≡ s = ground (arith, e, there) in
          rw (e, reads, authenticate) (ap known same),
    )
    | inl writes ↦ elim (Bool-cases (csrf_ok deps r.csrf_header t.csrf_token_hash)) [
      | inr bad ↦ (
        λ h. absurd (rejected-ne-known 403 "CsrfFailed" s (rw (e, writes, bad, authenticate) at h)),
        λ (there, token).
            let same : s ≡ t = ground (arith, e, there) in
            elim token [
              | inl still ↦ absurd (still ((is_mutating_iff r.method).0 writes))
              | inr has ↦
                  let good = (csrf_ok_iff deps r t).1 (subst (HasToken deps r) same has) in
                  absurd (ground (arith, bad, good))
            ],
      )
      | inl good ↦ (
        λ h.
            let h' : known t ≡ known s = rw (e, writes, good, authenticate) at h in
            let same : t ≡ s = known-injective t s h' in
            (e ∙ ap some same, inr (subst (HasToken deps r) same ((csrf_ok_iff deps r t).0 good))),
        λ (there, _).
            let same : t ≡ s = ground (arith, e, there) in
            rw (e, writes, good, authenticate) (ap known same),
      )
    ]
  ]
]

Lookup-cases :
    (l : Lookup) → ((tag : Option String) × (l ≡ tagged tag)) ⊎ ((l ≡ missing) ⊎ (l ≡ failed))
Lookup-cases (tagged tag) = inl (tag, refl)
Lookup-cases missing = inr (inl refl)
Lookup-cases failed = inr (inr refl)

tagged-injective : (a b : Option String) → tagged a ≡ tagged b → a ≡ b
tagged-injective a b e = cc

pub resolve_environment_iff :
    (deps : GuardDeps) (r : Request) (tag : Option String)
    → (resolve_environment deps r.instance_id ≡ some tag) ↔ IsFor deps r tag
unfolding resolve_environment
resolve_environment_iff deps r tag = elim (Option-cases r.instance_id) [
  | inl e ↦
      (λ h. absurd (ground (arith, e, h)), λ (i, there, _, _). absurd (ground (arith, e, there)))
  | inr (i, e) ↦ elim (Bool-cases (str_eq i "")) [
    | inl blank ↦ (
      λ h. absurd (ground (arith, e, blank, h)),
      λ (j, there, filled, _). absurd (ground (arith, e, there, filled, blank, eq_iff i "")),
    )
    | inr filled ↦
        let named : i ≢ "" = λ q. absurd (ground (arith, filled, eq_iff i "", q)) in
        elim (Lookup-cases (deps.environment_of_instance i)) [
          | inl (t, f) ↦ (
            λ h.
                let h' : some t ≡ some tag = rw (e, filled, f, resolve_environment) at h in
                let same : t ≡ tag = ground (arith, h') in (i, e, named, f ∙ ap tagged same),
            λ (j, there, _, g).
                let own : j ≡ i = ground (arith, e, there) in
                let g' : deps.environment_of_instance i ≡ tagged tag =
                  subst (λ x. deps.environment_of_instance x ≡ tagged tag) own g in
                rw (e, filled, f, resolve_environment)
                  (ap some (tagged-injective t tag (sym f ∙ g'))),
          )
          | inr none_found ↦ (
            λ h. elim none_found [
              | inl f ↦ absurd (ground (arith, e, filled, f, h))
              | inr f ↦ absurd (ground (arith, e, filled, f, h))
            ],
            λ (j, there, _, g).
                let own : j ≡ i = ground (arith, e, there) in
                let g' : deps.environment_of_instance i ≡ tagged tag =
                  subst (λ x. deps.environment_of_instance x ≡ tagged tag) own g in
                elim none_found [
                  | inl f ↦ absurd (ground (arith, f, g'))
                  | inr f ↦ absurd (ground (arith, f, g'))
                ],
          )
        ]
  ]
]
