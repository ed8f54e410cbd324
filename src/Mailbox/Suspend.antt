-- ===== src/Mailbox/Suspend.antt =====
-- The policies of engine/pkg/actor/mailbox/suspend_policy.go: which jobs a suspended mailbox
-- still takes. `none` is a panic.
use emberengine.Prelude.{
  ◌≡◌, refl, ap, ◌∙◌, List, [], ◌∷◌, ◌++◌, Bool, true, false, Option, none, some, if◌then◌else◌,
  ◌||◌, Option-cases, inl, inr,
}
use emberengine.Prelude.Int.{leb_ℤ}
use emberengine.Mailbox.Job.{
  Job, JobType, none_type, rpc, event, timer, concurrent_callback, sys_ctl, Body, rpc_body,
  other_body, get_envelope, priority_urgent,
}

-- `ISuspendPolicy`, what `ShouldAllow` answers.
abbrev pub SuspendPolicy : Type 0
SuspendPolicy = Job → Option Bool

-- `envelope != nil`, `data != nil && data.IsReply()`.
abbrev is_reply : Option (Option Bool) → Bool
is_reply none = false
is_reply (some none) = false
is_reply (some (some reply)) = reply

-- The second rule, on a job of type Rpc only.
unfoldable pub reply_rule : JobType → Body → Option Bool
reply_rule rpc body = elim (get_envelope body) [
  | none ↦ none
  | some envelope ↦ some (is_reply envelope)
]
reply_rule _ body = some false

abbrev is_callback : JobType → Bool
is_callback concurrent_callback = true
is_callback _ = false

pub default_should_allow : SuspendPolicy
unfolding reply_rule
default_should_allow job =
    if leb_ℤ job.priority priority_urgent then some true else elim (reply_rule job.kind job.body) [
      | none ↦ none
      | some true ↦ some true
      | some false ↦ some (is_callback job.kind)
    ]

-- The atomic pointer to the list of policies, nil before the first store.
pub record CompositeSuspendPolicy : Type 0 where
  pub policies : Option (List SuspendPolicy)

pub new_composite_suspend_policy : List SuspendPolicy → CompositeSuspendPolicy
new_composite_suspend_policy policies = record { policies = some policies }

-- One round of the loop: it returns where a policy allows, else the later rounds decide.
abbrev pub either_allows : Option Bool → Option Bool → Option Bool
either_allows (some true) later = some true
either_allows (some false) later = later
either_allows none later = none

any_allows : List SuspendPolicy → SuspendPolicy
any_allows [] job = some false
any_allows (policy ∷ policies) job = either_allows (policy job) (any_allows policies job)

pub composite_should_allow : CompositeSuspendPolicy → SuspendPolicy
unfolding any_allows
composite_should_allow p job = elim p.policies [
  | none ↦ some false
  | some policies ↦ any_allows policies job
]

-- `AddPolicy` where its compare-and-swap succeeds; before that it changes nothing.
pub add_policy : CompositeSuspendPolicy → SuspendPolicy → CompositeSuspendPolicy
add_policy p policy = elim p.policies [
  | none ↦ record { policies = some (policy ∷ []) }
  | some old ↦ record { policies = some (old ++ policy ∷ []) }
]

-- A job of type Rpc is an `RpcJob`, which the job factory guarantees.
abbrev pub IsTyped : Job → Type 0
IsTyped job = (b : Bool) × (reply_rule job.kind job.body ≡ some b)

-- The data of an envelope that says that it is a reply.
abbrev pub has_reply : JobType → Body → Bool
has_reply rpc (rpc_body (some (some reply))) = reply
has_reply _ _ = false

reply_rule_lem :
    (kind : JobType) (body : Body) {b : Bool}
    → reply_rule kind body ≡ some b
    → b ≡ has_reply kind body
unfolding reply_rule get_envelope
reply_rule_lem none_type body e = cc
reply_rule_lem rpc (rpc_body none) e = cc
reply_rule_lem rpc (rpc_body (some none)) e = cc
reply_rule_lem rpc (rpc_body (some (some r))) e = cc
reply_rule_lem rpc other_body e = cc
reply_rule_lem event body e = cc
reply_rule_lem timer body e = cc
reply_rule_lem concurrent_callback body e = cc
reply_rule_lem sys_ctl body e = cc

default_from :
    (urgent reply callback : Bool) {o : Option Bool}
    → o ≡ some reply
    → (if urgent
        then some true
        else elim o [ none ↦ none | some true ↦ some true | some false ↦ some callback ])
      ≡ some (urgent || (reply || callback))
default_from true reply callback e = refl
default_from false true callback e = rw e
default_from false false callback e = rw e

-- The default policy always answers, and allows exactly the urgent jobs, the replies to calls and
-- the concurrent callbacks.
pub default_should_allow_lem :
    (job : Job)
    → IsTyped job
    → default_should_allow job
      ≡ some (
          leb_ℤ job.priority priority_urgent
          || (has_reply job.kind job.body || is_callback job.kind))
unfolding default_should_allow
default_should_allow_lem job (b, typed) =
    default_from (leb_ℤ job.priority priority_urgent) b (is_callback job.kind) typed
    ∙ ap (λ r. some (leb_ℤ job.priority priority_urgent || (r || is_callback job.kind)))
        (reply_rule_lem job.kind job.body typed)

either_allows_assoc :
    (a b c : Option Bool)
    → either_allows a (either_allows b c) ≡ either_allows (either_allows a b) c
either_allows_assoc none b c = refl
either_allows_assoc (some true) b c = refl
either_allows_assoc (some false) b c = refl

either_allows-false : (a : Option Bool) → either_allows a (some false) ≡ a
either_allows-false none = refl
either_allows-false (some true) = refl
either_allows-false (some false) = refl

any_allows-append :
    (ps : List SuspendPolicy) (policy : SuspendPolicy) (job : Job)
    → any_allows (ps ++ policy ∷ []) job ≡ either_allows (any_allows ps job) (policy job)
unfolding any_allows
any_allows-append [] policy job = either_allows-false (policy job)
any_allows-append (p ∷ ps) policy job =
    ap (either_allows (p job)) (any_allows-append ps policy job)
    ∙ either_allows_assoc (p job) (any_allows ps job) (policy job)

-- A policy that is added is asked last: it matters only for the jobs that all before it refuse.
pub composite_should_allow-add_policy :
    (p : CompositeSuspendPolicy) (policy : SuspendPolicy) (job : Job)
    → composite_should_allow (add_policy p policy) job
      ≡ either_allows (composite_should_allow p job) (policy job)
unfolding composite_should_allow add_policy any_allows
composite_should_allow-add_policy p policy job = elim (Option-cases p.policies) [
  | inl e ↦ rw (e, add_policy, composite_should_allow) (either_allows-false (policy job))
  | inr c ↦ rw (c.1, add_policy, composite_should_allow) (any_allows-append c.0 policy job)
]
