-- ===== src/Peer/Endpoint/Objects.antt =====
-- The objects that `remote` gives out: one for each definition.
use robotframework_jsonrpcre.Base.{
  ℕ, true, ◌∷◌, ◌≡◌, refl, ap, sym, subst, ◌∙◌, ◌+◌, inl, inr, Bool-cases, Option-cases,
}
use robotframework_jsonrpcre.Base.Result.{ok, Result-cases}
use robotframework_jsonrpcre.Peer.Endpoint.{Classes, Remotes, known, remote_class, remote}

module _ {C P : Type 0} (classes : Classes C P) where
  -- The object for a definition is kept: the peer gives the same one again, and builds none.
  pub remote_kept :
      (definition : C) (r after : Remotes C) (object : ℕ)
      → classes.is_same definition definition ≡ true
      → remote classes definition r ≡ (ok object, after)
      → remote classes definition after ≡ (ok object, after)
  unfolding remote known
  remote_kept definition r after object same h =
      elim (Bool-cases (classes.is_endpoint definition)) [
        | inr e ↦ absurd (let i = rw e at h in cc)
        | inl e ↦ elim (Option-cases (known classes definition r.built)) [
          | inr (o, k) ↦
              let i : r ≡ after = ap (λ x. x.1) (rw (e, k) at h) in
              subst (λ x. remote classes definition x ≡ (ok object, x)) i
                (h ∙ ap (λ x. (ok object, x)) (sym i))
          | inl k ↦ elim (Result-cases (remote_class classes definition)) [
            | inr (x, c) ↦ absurd (let i = ap (λ p. p.0) (rw (e, k, c) at h) in cc)
            | inl (m, c) ↦
                let made : (
                  ok r.next,
                  record { built = (definition, r.next) ∷ r.built; next = r.next + 1 },
                )
                    ≡ (ok object, after) =
                  rw (e, k, c) at h in
                subst (λ x. remote classes definition x.1 ≡ x) made (rw (e, same) refl)
          ]
        ]
      ]
