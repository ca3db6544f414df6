-- ===== src/Service/Incidents/Lifecycle.antt =====
-- The life of an incident over any sequence of calls (backend/app/incidents/store.py).
use bug_free_enigma.Base.{
  ◌==◌, Bool-cases, String, false, Option, none, some, ◌≡◌, ◌≢◌, ◌⊎◌, inl, inr, arith, ok,
  Option-cases, Outcome-cases, eq_iff, All,
}
use bug_free_enigma.Base.Dict.{lookup, put, values, lookup-put, All-put, All-lookup}
use bug_free_enigma.Core.Enums.{IncidentStatus}
use bug_free_enigma.Core.Time.{Instant}
use bug_free_enigma.Core.Models.Control.{Incident}
use bug_free_enigma.Service.State.{Env, Company}
use bug_free_enigma.Service.Actions.{new_id, utc_now}
use bug_free_enigma.Service.Records.{log_event}
use bug_free_enigma.Service.Incidents.{
  IncidentStore, report, is_resolved, acknowledged, acknowledge, resolved, resolve,
  acknowledge_incident, resolve_incident,
}

-- What holds of each incident: an open one carries no acknowledgement and no resolution, an
-- acknowledged one who acknowledged it and when, and no resolution, and a resolved one who resolved
-- it, when and with which note.
pub record IsSigned (x : Incident) : Type 0 where
  pub fresh :
      x.status ≡ IncidentStatus.opened → (x.acknowledged_by ≡ none) × (x.acknowledged_at ≡ none)
  pub seen :
      x.status ≡ IncidentStatus.acknowledged
      → (x.acknowledged_by ≢ none) × (x.acknowledged_at ≢ none)
  pub pending : x.status ≢ IncidentStatus.resolved → (x.resolved_by ≡ none) × (x.resolved_at ≡ none)
  pub closed :
      x.status ≡ IncidentStatus.resolved
      → (x.resolved_by ≢ none) × (x.resolved_at ≢ none) × (x.resolution_note ≢ none)

acknowledge-eq-ok :
    (i by : String) (remark : Option String) (now : Instant) (s : IncidentStore) {x : Incident}
    → acknowledge i by remark now s ≡ ok x
    → (old : Incident) × (lookup i s ≡ some old)
      × (is_resolved old.status ≡ false)
      × (x ≡ acknowledged by remark now old)
unfolding acknowledge
acknowledge-eq-ok i by remark now s h = elim (Option-cases (lookup i s)) [
  | inl missing ↦ absurd (ground arith)
  | inr (old, e) ↦ (old, e, ground arith, ground arith)
]

resolve-eq-ok :
    (i by remark : String) (now : Instant) (s : IncidentStore) {x : Incident}
    → resolve i by remark now s ≡ ok x
    → (old : Incident) × (lookup i s ≡ some old) × (x ≡ resolved by remark now old)
unfolding resolve
resolve-eq-ok i by remark now s h = elim (Option-cases (lookup i s)) [
  | inl missing ↦ absurd (ground arith)
  | inr (old, e) ↦ (old, e, ground arith)
]

acknowledged-IsSigned :
    (by : String) (remark : Option String) (now : Instant) (x : Incident)
    → IsSigned x
    → is_resolved x.status ≡ false
    → IsSigned (acknowledged by remark now x)
acknowledged-IsSigned by remark now x h unresolved = ground arith

resolved-IsSigned :
    (by remark : String) (now : Instant) (x : Incident)
    → IsSigned x
    → IsSigned (resolved by remark now x)
resolved-IsSigned by remark now x h = ground arith

-- The incident is stored and resolved.
abbrev pub IsResolved : String → Company → Type 0
IsResolved i c =
    (x : Incident) × (lookup i c.incidents ≡ some x) × (x.status ≡ IncidentStatus.resolved)

module _ (env : Env) where
  -- One call that concerns incidents, whether it raises or not. A new one is open and unsigned, as
  -- the records make it, and under an identifier that is not in use.
  pub data Step (c : Company) : Company → Type 0 where
    reported :
        (x : Incident) (d : Company)
        → lookup x.incident_id c.incidents ≡ none
        → x.status ≡ IncidentStatus.opened
        → IsSigned x
        → d.incidents ≡ report x c.incidents
        → Step c d
    acknowledging :
        (i by : String) (remark : Option String) → Step c (acknowledge_incident env i by remark c).1
    resolving : (i by remark : String) → Step c (resolve_incident env i by remark c).1
    elsewhere : (d : Company) → d.incidents ≡ c.incidents → Step c d

  pub data Reach (c : Company) : Company → Type 0 where
    here : Reach c c
    next : {d e : Company} → Reach c d → Step d e → Reach c e

  -- the incidents that the two methods leave
  acknowledge_incident-incidents :
      (i by : String) (remark : Option String) (c : Company)
      → ((acknowledge_incident env i by remark c).1.incidents ≡ c.incidents)
        ⊎ ((x : Incident) × (acknowledge i by remark (env.clock c.clock_reads) c.incidents ≡ ok x)
            × ((acknowledge_incident env i by remark c).1.incidents ≡ put i x c.incidents))
  unfolding acknowledge_incident log_event new_id utc_now
  acknowledge_incident-incidents i by remark c =
      elim (Outcome-cases (acknowledge i by remark (env.clock c.clock_reads) c.incidents)) [
        | inl (x, e) ↦ inr (x, e, ground arith)
        | inr (x, e) ↦ inl (ground arith)
      ]

  resolve_incident-incidents :
      (i by remark : String) (c : Company)
      → ((resolve_incident env i by remark c).1.incidents ≡ c.incidents)
        ⊎ ((x : Incident) × (resolve i by remark (env.clock c.clock_reads) c.incidents ≡ ok x)
            × ((resolve_incident env i by remark c).1.incidents ≡ put i x c.incidents))
  unfolding resolve_incident log_event new_id utc_now
  resolve_incident-incidents i by remark c =
      elim (Outcome-cases (resolve i by remark (env.clock c.clock_reads) c.incidents)) [
        | inl (x, e) ↦ inr (x, e, ground arith)
        | inr (x, e) ↦ inl (ground arith)
      ]

  Step-IsSigned :
      {c d : Company}
      → Step c d
      → All IsSigned (values c.incidents)
      → All IsSigned (values d.incidents)
  unfolding report
  Step-IsSigned {c} (reported x d fresh opened signed e) h =
      rw e (All-put IsSigned x.incident_id x c.incidents signed h)
  Step-IsSigned {c} (acknowledging i by remark) h =
      elim (acknowledge_incident-incidents i by remark c) [
        | inl same ↦ rw same h
        | inr (x, e, written) ↦
            let (old, found, unresolved, same) =
              acknowledge-eq-ok i by remark (env.clock c.clock_reads) c.incidents e in
            rw written (
              All-put IsSigned i x c.incidents
                (rw same (
                  acknowledged-IsSigned by remark (env.clock c.clock_reads) old
                    (All-lookup IsSigned i c.incidents h found) unresolved))
                h)
      ]
  Step-IsSigned {c} (resolving i by remark) h = elim (resolve_incident-incidents i by remark c) [
    | inl same ↦ rw same h
    | inr (x, e, written) ↦
        let (old, found, same) =
          resolve-eq-ok i by remark (env.clock c.clock_reads) c.incidents e in
        rw written (
          All-put IsSigned i x c.incidents
            (rw same (
              resolved-IsSigned by remark (env.clock c.clock_reads) old
                (All-lookup IsSigned i c.incidents h found)))
            h)
  ]
  Step-IsSigned (elsewhere d e) h = rw e h

  -- In every state that calls reach from one whose incidents are signed, they are signed: an open
  -- incident carries no acknowledgement and no resolution, an acknowledged one who acknowledged it
  -- and when, and no resolution, and a resolved one who resolved it, when and with which note.
  pub Reach-IsSigned :
      {c d : Company}
      → All IsSigned (values c.incidents)
      → Reach c d
      → All IsSigned (values d.incidents)
  Reach-IsSigned h here = h
  Reach-IsSigned h (next r s) = Step-IsSigned s (Reach-IsSigned h r)

  -- a write under one key, seen under another or the same
  IsResolved-put :
      (i j : String) (x : Incident) (c d : Company)
      → IsResolved i c
      → (j ≡ i → x.status ≡ IncidentStatus.resolved)
      → d.incidents ≡ put j x c.incidents
      → IsResolved i d
  IsResolved-put i j x c d (y, found, closed) own written = elim (Bool-cases (j == i)) [
    | inl same ↦
        (x, ground (arith, written, lookup-put j i x c.incidents), own ((eq_iff j i).0 same))
    | inr other ↦ (y, ground (arith, written, lookup-put j i x c.incidents), closed)
  ]

  Step-IsResolved : (i : String) {c d : Company} → Step c d → IsResolved i c → IsResolved i d
  unfolding report
  Step-IsResolved i {c} (reported x d fresh opened signed e) h =
      IsResolved-put i x.incident_id x c d h (λ same. absurd (ground (arith, same, h.1))) e
  Step-IsResolved i {c} (acknowledging j by remark) h =
      elim (acknowledge_incident-incidents j by remark c) [
        | inl same ↦ (h.0, rw same h.1, h.2)
        | inr (x, e, written) ↦
            let (old, found, unresolved, _) =
              acknowledge-eq-ok j by remark (env.clock c.clock_reads) c.incidents e in
            IsResolved-put i j x c (acknowledge_incident env j by remark c).1 h
              (λ same. absurd (ground (arith, same, h.1, h.2, found))) written
      ]
  Step-IsResolved i {c} (resolving j by remark) h =
      elim (resolve_incident-incidents j by remark c) [
        | inl same ↦ (h.0, rw same h.1, h.2)
        | inr (x, e, written) ↦
            let (old, found, done) =
              resolve-eq-ok j by remark (env.clock c.clock_reads) c.incidents e in
            IsResolved-put i j x c (resolve_incident env j by remark c).1 h (λ same. ground arith)
              written
      ]
  Step-IsResolved i (elsewhere d e) h = (h.0, rw e h.1, h.2)

  -- A resolved incident stays resolved in every state that later calls reach: no acknowledgement
  -- reopens it, and reports come under identifiers that are not in use.
  pub Reach-IsResolved : (i : String) {c d : Company} → IsResolved i c → Reach c d → IsResolved i d
  Reach-IsResolved i h here = h
  Reach-IsResolved i h (next r s) = Step-IsResolved i s (Reach-IsResolved i h r)
