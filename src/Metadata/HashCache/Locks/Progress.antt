-- ===== src/Metadata/HashCache/Locks/Progress.antt =====
-- That some thread that calls `get_or_insert` of event-listener/src/metadata/hash_cache.rs can always
-- go on, under its lock.
use event_listener.Prelude.{
  ℕ, ◌≡◌, refl, ap, subst, ◌⊎◌, inl, inr, Option, none, some, List, [], ◌∷◌, ◌++◌, All, All-mono,
  map,
}
use event_listener.Outcome.{Result, Run}
use event_listener.Metadata.HashCache.{PalletItemKey}
use event_listener.Metadata.HashCache.Locks.{
  Guard, shared, exclusive, Point, at_read, reading, computing, at_write, writing, ended, Caller,
  Shared, guard_of, request_of, RwLock, MayProceed, Step, moves,
}

-- Each element has the one property, or the list is cut at an element with the other.
All-or-cut :
    {A : Type 0} {P R : A → Type 0}
    → ((x : A) → P x ⊎ R x)
    → (xs : List A)
    → All P xs ⊎ ((front : List A) × (x : A) × (back : List A) × (xs ≡ front ++ (x ∷ back)) × R x)
All-or-cut f [] = inl tt
All-or-cut f (x ∷ xs) = elim (f x) [
  | inr r ↦ inr ([], x, xs, refl, r)
  | inl p ↦ elim (All-or-cut f xs) [
    | inl ps ↦ inl (p, ps)
    | inr (front, y, back, e, r) ↦ inr (x ∷ front, y, back, ap (λ ys. x ∷ ys) e, r)
  ]
]

pub All-both :
    {A : Type 0} (P Q : A → Type 0) (xs : List A) → All P xs → All Q xs → All (λ x. P x × Q x) xs
All-both P Q [] h k = tt
All-both P Q (x ∷ xs) (p, h) (q, k) = ((p, q), All-both P Q xs h k)

All-map :
    {A B : Type 0} (f : A → B) (P : B → Type 0) (xs : List A)
    → All (λ x. P (f x)) xs
    → All P (map f xs)
All-map f P [] h = tt
All-map f P (x ∷ xs) (p, h) = (p, All-map f P xs h)

module _ {E : Type 0} where
  abbrev pub HasEnded : Point E → Type 0
  HasEnded p = (r : Run (Result (List ℕ) E)) × (p ≡ ended r)

  -- The call holds no guard, and waits for one or has ended.
  abbrev Stands : Point E → Type 0
  Stands p = (guard_of p ≡ none) × (((g : Guard) × (request_of p ≡ some g)) ⊎ HasEnded p)

  -- The call goes on without waiting.
  abbrev Goes : Point E → Type 0
  Goes p = (¬ HasEnded p) × (request_of p ≡ none)

  stand_or_go : (p : Point E) → Stands p ⊎ Goes p
  unfolding guard_of request_of
  stand_or_go at_read = inl (refl, inl (shared, refl))
  stand_or_go reading = inr (λ h. cc, refl)
  stand_or_go computing = inr (λ h. cc, refl)
  stand_or_go (at_write hash) = inl (refl, inl (exclusive, refl))
  stand_or_go (writing hash) = inr (λ h. cc, refl)
  stand_or_go (ended r) = inl (refl, inr (r, refl))

  requests : (g : Guard) (p : Point E) → (¬ (request_of p ≡ some g)) ⊎ (request_of p ≡ some g)
  requests g p = same (request_of p)
    where
      same : (o : Option Guard) → (¬ (o ≡ some g)) ⊎ (o ≡ some g)
      same none = inl (λ h. cc)
      same (some h) = of_guards h g
        where
          of_guards : (h g : Guard) → (¬ (some h ≡ some g)) ⊎ (some h ≡ some g)
          of_guards shared shared = inr refl
          of_guards shared exclusive = inl (λ e. cc)
          of_guards exclusive shared = inl (λ e. cc)
          of_guards exclusive exclusive = inr refl

  Stands-HasEnded :
      (p : Point E)
      → Stands p
      → ¬ (request_of p ≡ some exclusive)
      → ¬ (request_of p ≡ some shared)
      → HasEnded p
  Stands-HasEnded p (e, inl (shared, w)) x s = absurd (s w)
  Stands-HasEnded p (e, inl (exclusive, w)) x s = absurd (x w)
  Stands-HasEnded p (e, inr h) x s = h

  request-unended : (g : Guard) (p : Point E) → request_of p ≡ some g → ¬ HasEnded p
  unfolding request_of
  request-unended g p e (r, h) = let none_asked : request_of p ≡ none = rw h refl in cc

module _ {E : Type 0} (lock : RwLock) (value : PalletItemKey → Run (Result (List ℕ) E)) where
  -- A step of a call that the lock lets go on.
  go_on :
      (s : Shared E) (front : List (Caller E)) (t : Caller E) (back : List (Caller E))
      → s.callers ≡ front ++ (t ∷ back)
      → MayProceed lock value s.callers t.point
      → (u : Shared E) × Step lock value s u
  go_on s front t back e may = (_, moves front t back e may)

  pub granted :
      (s : Shared E) (p : Point E) (h : Guard)
      → request_of p ≡ some h
      → lock.Grants h
          (map (λ t. guard_of t.point) s.callers)
          (map (λ t. request_of t.point) s.callers)
      → MayProceed lock value s.callers p
  granted s p h e grants = (
    request-unended h p e,
    λ g k.
        let same : h ≡ g = cc in
        subst
          (λ g.
            lock.Grants g (map (λ t. guard_of t.point) s.callers)
              (map (λ t. request_of t.point) s.callers))
          same grants,
  )

  none_held :
      (s : Shared E)
      → All (λ t. Stands t.point) s.callers
      → All (λ g. g ≡ none) (map (λ t. guard_of t.point) s.callers)
  none_held s h = All-map _ _ s.callers (All-mono (λ t p. p.0) s.callers h)

  -- Whatever the state, every call has ended or some call may go on.
  pub all_ended-or-Step :
      (s : Shared E)
      → All (λ t. HasEnded t.point) s.callers ⊎ ((u : Shared E) × Step lock value s u)
  all_ended-or-Step s = elim (All-or-cut (λ t. stand_or_go t.point) s.callers) [
    | inr (front, t, back, e, (unended, free)) ↦ inr (go_on s front t back e (unended, λ g h. cc))
    | inl stand ↦ elim (All-or-cut (λ t. requests exclusive t.point) s.callers) [
      | inr (front, t, back, e, h) ↦ inr (
          go_on s front t back e
            (granted s t.point exclusive h (lock.grants_exclusive _ _ (none_held s stand))))
      | inl no_writer ↦ elim (All-or-cut (λ t. requests shared t.point) s.callers) [
        | inr (front, t, back, e, h) ↦ inr (
            go_on s front t back e (
              granted s t.point shared h
                (lock.grants_shared _ _ (none_held s stand) (All-map _ _ s.callers no_writer))))
        | inl no_reader ↦ inl (
            All-mono (λ t h. Stands-HasEnded t.point h.0 h.1.0 h.1.1) s.callers
              (All-both _ _ s.callers stand (All-both _ _ s.callers no_writer no_reader)))
      ]
    ]
  ]
