-- ===== src/Provenance/Chain.antt =====
-- The chain of hashes that `record_provenance_event` of backend/provenance_store.py keeps.
use minima_pi_net_os.Prelude.{
  str_eq, ℕ, zero, suc, ◌-◌, ◌≤◌, ◌≡◌, refl, Str, codes, Option, some, List, [], ◌∷◌, ◌++◌, length,
  take, drop, ltb, ok, arith, Bool-cases, Result-cases, bind-ok, ok-injective, subst, inl, inr,
  length-drop, raise, ap, ◌∙◌,
}
use minima_pi_net_os.Json.{Value, obj, get}
use minima_pi_net_os.Provenance.{
  Event, last_hash, trim, max_provenance_events, digest_of, unsigned, checked_event,
  checked_event_type, checked_payload, named_type, record_provenance_event,
}

-- Each event names the hash of the one before it.
abbrev pub IsLinked : List Event → Type 0
IsLinked [] = Unit
IsLinked (e ∷ []) = Unit
IsLinked (e ∷ f ∷ es) = (f.previous_hash ≡ some e.rmpe_hash) × IsLinked (f ∷ es)

IsLinked-tail : (e : Event) (es : List Event) → IsLinked (e ∷ es) → IsLinked es
IsLinked-tail e [] h = tt
IsLinked-tail e (f ∷ es) h = h.1

IsLinked-drop : (n : ℕ) (es : List Event) → IsLinked es → IsLinked (drop n es)
IsLinked-drop zero es h = h
IsLinked-drop (suc n) [] h = tt
IsLinked-drop (suc n) (e ∷ es) h = IsLinked-drop n es (IsLinked-tail e es h)

IsLinked-append :
    (es : List Event) (e : Event)
    → IsLinked es
    → e.previous_hash ≡ last_hash es
    → IsLinked (es ++ e ∷ [])
unfolding last_hash
IsLinked-append [] e h same = tt
IsLinked-append (d ∷ []) e h same = (same, tt)
IsLinked-append (d ∷ f ∷ es) e h same = (h.0, IsLinked-append (f ∷ es) e h.1 same)

module _ (sha256 : Str → Str) (version : Str) where
  -- The event's hash and its identifier are those of its members.
  abbrev pub IsSealed : Event → Type 0
  IsSealed e =
      (e.rmpe_hash ≡ codes "sha256:" ++ digest_of sha256 version e)
      × (e.provenance_id ≡ codes "rmpe2:" ++ take 16 (digest_of sha256 version e))

  abbrev pub AllSealed : List Event → Type 0
  AllSealed [] = Unit
  AllSealed (e ∷ es) = IsSealed e × AllSealed es

  AllSealed-drop : (n : ℕ) (es : List Event) → AllSealed es → AllSealed (drop n es)
  AllSealed-drop zero es h = h
  AllSealed-drop (suc n) [] h = tt
  AllSealed-drop (suc n) (e ∷ es) h = AllSealed-drop n es h.1

  AllSealed-append :
      (es : List Event) (e : Event) → AllSealed es → IsSealed e → AllSealed (es ++ e ∷ [])
  AllSealed-append [] e h s = (s, tt)
  AllSealed-append (d ∷ es) e h s = (h.0, AllSealed-append es e h.1 s)

  pub record IsChain (es : List Event) : Type 0 where
    pub bounded : length es ≤ max_provenance_events
    pub linked : IsLinked es
    pub are_sealed : AllSealed es

  IsChain-trim : (es : List Event) → IsLinked es → AllSealed es → IsChain (trim es)
  unfolding trim
  IsChain-trim es linked sealed = elim (Bool-cases (ltb max_provenance_events (length es))) [
    | inl more ↦ rw more (record {
      bounded = omega (arith, length-drop (length es - max_provenance_events) es);
      linked = IsLinked-drop (length es - max_provenance_events) es linked;
      are_sealed = AllSealed-drop (length es - max_provenance_events) es sealed;
    })
    | inr fits ↦ rw fits (record { bounded = ground arith; linked = linked; are_sealed = sealed })
  ]

module _ (sha256 : Str → Str) (version : Str) (py_str : Value → Str) where
  -- A body that is accepted gives an event that names the hash it was given and is sealed.
  pub checked_event-IsSealed :
      (now : ℕ) (source : Str) (body : Value) (previous : Option Str) (e : Event)
      → checked_event sha256 version py_str now source body previous ≡ ok e
      → (e.previous_hash ≡ previous) × IsSealed sha256 version e
  unfolding checked_event digest_of unsigned
  checked_event-IsSealed now source (obj body) previous e h =
      let (t, typed, h') = bind-ok (checked_event_type (named_type body)) _ h in
      let (p, given, h'') = bind-ok (checked_payload (get (codes "payload") body)) _ h' in
      subst (λ x. (x.previous_hash ≡ previous) × IsSealed sha256 version x) (ok-injective h'')
        (refl, (refl, refl))
  checked_event-IsSealed now source _ previous e h = absurd (cc)

  pub record-IsChain :
      (now : ℕ) (source : Str) (body : Value) (es : List Event)
      → IsChain sha256 version es
      → IsChain sha256 version (record_provenance_event sha256 version py_str now source body es).1
  unfolding record_provenance_event
  record-IsChain now source body es h =
      elim (Result-cases (checked_event sha256 version py_str now source body (last_hash es))) [
        | inl (x, failed) ↦ rw failed h
        | inr (e, made) ↦
            let (named, sealed) = checked_event-IsSealed now source body (last_hash es) e made in
            rw made (
              IsChain-trim sha256 version (es ++ e ∷ []) (IsLinked-append es e h.linked named)
                (AllSealed-append sha256 version es e h.are_sealed sealed))
      ]

  -- An event that was recorded is sealed.
  pub record-IsSealed :
      (now : ℕ) (source : Str) (body : Value) (es after : List Event) (e : Event)
      → record_provenance_event sha256 version py_str now source body es ≡ (ok e, after)
      → IsSealed sha256 version e
  unfolding record_provenance_event
  record-IsSealed now source body es after e h =
      let answer : (record_provenance_event sha256 version py_str now source body es).0 ≡ ok e =
        ap (λ r. r.0) h in
      elim (Result-cases (checked_event sha256 version py_str now source body (last_hash es))) [
        | inl (x, failed) ↦ let g : raise x ≡ ok e = rw failed at answer in absurd (cc)
        | inr (f, made) ↦
            let g : ok f ≡ ok e = rw made at answer in
            (checked_event-IsSealed now source body (last_hash es) e (made ∙ g)).1
      ]

  -- Bodies that arrive one after the other, each with its time and its source.
  unfoldable pub record_all : List (ℕ × Str × Value) → List Event → List Event
  record_all [] es = es
  record_all ((now, source, body) ∷ more) es =
      record_all more (record_provenance_event sha256 version py_str now source body es).1

  record_all-from :
      (arrivals : List (ℕ × Str × Value)) (es : List Event)
      → IsChain sha256 version es
      → IsChain sha256 version (record_all arrivals es)
  unfolding record_all
  record_all-from [] es h = h
  record_all-from ((now, source, body) ∷ more) es h =
      record_all-from more (record_provenance_event sha256 version py_str now source body es).1
        (record-IsChain now source body es h)

  -- Whatever bodies arrive at the empty store, accepted or not: it keeps at most 1000 events, each
  -- but the first names the hash of the one before it, and the hash and the identifier of each are
  -- those of the canonical text of its members.
  pub record_all-IsChain :
      (arrivals : List (ℕ × Str × Value)) → IsChain sha256 version (record_all arrivals [])
  record_all-IsChain arrivals =
      record_all-from arrivals [] (record { bounded = omega arith; linked = tt; are_sealed = tt })
