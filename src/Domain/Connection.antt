-- ===== src/Domain/Connection.antt =====
-- internal/domain/agentconnection: when a probe may complete a set-up, and the states of its jobs and
-- elicitations.
use tejun.Prelude.{
  ℕ, String, Bool, true, false, Option, none, some, ◌≡◌, ◌==◌, not, ltb, if◌then◌else◌, ◌↔◌, arith,
  refl, sym, ◌∙◌, ◌<◌, ◌⊎◌, inl, inr, eq_iff,
}

pub data AuthState : Type 0 where
  unknown not_required required authenticated failed unsupported : AuthState

-- The fields that CanComplete reads; a time is its count of nanoseconds.
pub record Probe : Type 0 where
  pub config_fingerprint : String
  pub compatibility : String
  pub auth_state : AuthState
  pub expires_at : ℕ

abbrev pub is_authorized : AuthState → Bool
is_authorized AuthState.authenticated = true
is_authorized AuthState.not_required = true
is_authorized _ = false

-- CanComplete: the error, if any.
unfoldable pub can_complete : Probe → ℕ → String → Option String
can_complete p now fingerprint =
    if not (ltb now p.expires_at)
    then some "probeの有効期限が切れています"
    else if not (p.config_fingerprint == fingerprint)
    then some "probeと接続設定が一致しません"
    else if not (p.compatibility == "compatible")
    then some "ACP互換性を確認できません"
    else if not (is_authorized p.auth_state)
    then some "認証が完了していません"
    else none

-- The states in which the agent asks for no further authentication.
abbrev pub NeedsNoMore : AuthState → Type 0
NeedsNoMore a = (a ≡ AuthState.authenticated) ⊎ (a ≡ AuthState.not_required)

is_authorized-NeedsNoMore : (a : AuthState) → is_authorized a ≡ true → NeedsNoMore a
is_authorized-NeedsNoMore AuthState.authenticated h = inl refl
is_authorized-NeedsNoMore AuthState.not_required h = inr refl
is_authorized-NeedsNoMore AuthState.unknown h = absurd (cc)
is_authorized-NeedsNoMore AuthState.required h = absurd (cc)
is_authorized-NeedsNoMore AuthState.failed h = absurd (cc)
is_authorized-NeedsNoMore AuthState.unsupported h = absurd (cc)

-- What is fixed by one answer of CanComplete that has no error.
record Passed (p : Probe) (fingerprint : String) : Type 0 where
  pub same : p.config_fingerprint ≡ fingerprint
  pub compatible : (p.compatibility == "compatible") ≡ true
  pub authorized : is_authorized p.auth_state ≡ true

can_complete-Passed :
    (p : Probe) (now : ℕ) (fingerprint : String)
    → can_complete p now fingerprint ≡ none
    → (now < p.expires_at) × Passed p fingerprint
unfolding can_complete
can_complete-Passed p now fingerprint h = (
  ground arith,
  record {
    same = (eq_iff p.config_fingerprint fingerprint).0 (ground arith);
    compatible = ground arith;
    authorized = ground arith;
  },
)

Passed-can_complete :
    (p : Probe) (now : ℕ) (fingerprint : String)
    → Passed p fingerprint
    → now < p.expires_at
    → can_complete p now fingerprint ≡ none
unfolding can_complete
Passed-can_complete p now fingerprint h before =
    let same = (eq_iff p.config_fingerprint fingerprint).1 h.same in
    ground (arith, h.compatible, h.authorized)

-- Once a probe may complete a set-up, it may do so at exactly the times before it expires, and for the
-- same configuration alone; it found a compatible agent, which was authenticated or needs no
-- authentication.
pub can_complete-until :
    (p : Probe) (now : ℕ) (fingerprint : String)
    → can_complete p now fingerprint ≡ none
    → ((later : ℕ) (other : String)
        → (can_complete p later other ≡ none) ↔ ((later < p.expires_at) × (other ≡ fingerprint)))
      × (p.compatibility ≡ "compatible")
      × NeedsNoMore p.auth_state
can_complete-until p now fingerprint h =
    let passed = (can_complete-Passed p now fingerprint h).1 in
    (
      λ later other. (
        λ k.
            let (before, q) = can_complete-Passed p later other k in
            (before, sym q.same ∙ passed.same),
        λ (before, e). Passed-can_complete p later other (rw e passed) before,
      ),
      (eq_iff p.compatibility "compatible").0 passed.compatible,
      is_authorized-NeedsNoMore p.auth_state passed.authorized,
    )

pub data JobState : Type 0 where
  pending running succeeded failed : JobState

abbrev pub can_transition_job : JobState → JobState → Bool
can_transition_job JobState.pending JobState.running = true
can_transition_job JobState.running JobState.succeeded = true
can_transition_job JobState.running JobState.failed = true
can_transition_job _ _ = false

pub data ElicitationState : Type 0 where
  pending responding responded failed : ElicitationState

abbrev pub can_transition_elicitation : ElicitationState → ElicitationState → Bool
can_transition_elicitation ElicitationState.pending ElicitationState.responding = true
can_transition_elicitation ElicitationState.responding ElicitationState.responded = true
can_transition_elicitation ElicitationState.responding ElicitationState.failed = true
can_transition_elicitation _ _ = false
