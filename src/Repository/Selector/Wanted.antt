-- ===== src/Repository/Selector/Wanted.antt =====
-- The services that Select finds.
use Prim.Native.String.{String}
use emberengine.Prelude.{
  ℕ, ◌≡◌, ◌↔◌, refl, sym, ap, ◌∙◌, Bool, true, false, not, ◌&&◌, Option, none, some, arith,
  Option-cases, inl, inr,
}
use emberengine.Prelude.Int.{ℤ}
use emberengine.Prelude.Dict.{Eq, lookup, string_eq, int_eq}
use emberengine.Repository.{ServiceInfo, Repository, mem, holds, svc_status_ready}
use emberengine.Repository.Agree.{Agrees, has_name}
use emberengine.Repository.Selector.{SelectParam, select, fits, unset_or, bool_eq}
use emberengine.Repository.Selector.Query.{uids_of, receivers, ready_and_fits, mem-select}

-- What Select asks of a service.
pub record Wanted (n : String) (param : SelectParam) (info : ServiceInfo) : Type 0 where
  pub named : n ≡ info.dispatcher.pid.name
  pub ready : info.status ≡ svc_status_ready
  pub active : info.dispatcher.pid.retired ≡ false
  pub placed : (p : ℤ) → param.wanted_partition ≡ some p → info.dispatcher.pid.partition ≡ p
  pub identified : (i : String) → param.wanted_id ≡ some i → info.dispatcher.pid.service_id ≡ i
  pub in_role : info.dispatcher.pid.is_master ≡ not param.is_slaver

unset_or_iff :
    {A : Type 0} ⦃e : Eq A⦄ (x : A) (o : Option A)
    → (unset_or (e.beq x) o ≡ true) ↔ ((y : A) → o ≡ some y → x ≡ y)
unset_or_iff x none = (λ h y k. cc, λ h. refl)
unset_or_iff ⦃e⦄ x (some z) = (λ h y k. (e.beq_iff x z).0 h ∙ cc, λ h. (e.beq_iff x z).1 (h z refl))

bool_eq_iff : (a b : Bool) → (bool_eq a b ≡ true) ↔ (a ≡ b)
bool_eq_iff true b = (λ h. sym h, λ h. sym h)
bool_eq_iff false true = (λ h. cc, λ h. cc)
bool_eq_iff false false = (λ h. refl, λ h. refl)

suits-Wanted :
    (n : String) (param : SelectParam) (info : ServiceInfo)
    → ((has_name n info && ready_and_fits param info) ≡ true) ↔ Wanted n param info
unfolding fits
suits-Wanted n param info =
    let p = info.dispatcher.pid in
    let at = unset_or_iff p.partition param.wanted_partition in
    let id = unset_or_iff p.service_id param.wanted_id in
    let role = bool_eq_iff p.is_master (not param.is_slaver) in
    let same = string_eq.beq_iff n p.name in
    let up = int_eq.beq_iff info.status svc_status_ready in
    (
      λ h. record {
        named = same.0 (ground (arith, h));
        ready = up.0 (ground (arith, h));
        active = ground (arith, h);
        placed = at.0 (ground (arith, h));
        identified = id.0 (ground (arith, h));
        in_role = role.0 (ground (arith, h));
      },
      λ w.
          let n' = same.1 w.named in
          let r' = up.1 w.ready in
          let a' = at.1 w.placed in
          let i' = id.1 w.identified in
          let o' = role.1 w.in_role in ground (arith, n', r', a', i', o', w.active),
    )

-- Where the indexes agree with the services, Select with a name finds a uid if and only if it is that
-- of a service that has the name, is ready and not retired, and has the partition, the id and the role
-- asked for.
pub select-Wanted :
    (sender n u : String) (param : SelectParam) (now : ℕ) (r : Repository)
    → Agrees r
    → param.service_name ≡ some n
    → (mem u (uids_of (receivers (select sender param now r).0)) ≡ true)
      ↔ ((info : ServiceInfo) × (lookup u r.map_pid ≡ some info) × Wanted n param info)
select-Wanted sender n u param now r g named =
    let found = mem-select sender n u param now r g named in
    let suits = λ (info : ServiceInfo). has_name n info && ready_and_fits param info in
    elim (Option-cases (lookup u r.map_pid)) [
      | inl e ↦
          let nothing : holds suits (lookup u r.map_pid) ≡ false = ap (holds suits) e in
          (λ h. cc, λ w. cc)
      | inr (info, e) ↦
          let there : holds suits (lookup u r.map_pid) ≡ suits info = ap (holds suits) e in
          (
            λ h. (info, e, (suits-Wanted n param info).0 (sym there ∙ sym found ∙ h)),
            λ w. found ∙ ap (holds suits) w.1 ∙ (suits-Wanted n param w.0).1 w.2,
          )
    ]
