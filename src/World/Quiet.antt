-- ===== src/World/Quiet.antt =====
-- Actions that leave the approvals and the cluster alone, with one rule for each way to build an action.
use credit_scoring_mlops.Prelude.{String, ◌≡◌, refl, ◌∙◌, Bool, true, false, List, if◌then◌else◌}
use credit_scoring_mlops.Exec.{Error, Result, ok, err, pure, raise, raise_if, lift, catch, ◌>>=◌}
use credit_scoring_mlops.Schemas.{AuditEventType}
use credit_scoring_mlops.World.{External, World, App, inc, read_clock, new_uuid}
use credit_scoring_mlops.AuditService.{record_event, record_event-OnlyAudits, Entry}

-- The approvals and the cluster are as they were.
pub record Kept (w w' : World) : Type 0 where
  pub approvals : w'.approvals ≡ w.approvals
  pub commands : w'.commands ≡ w.commands

pub record Quiet {A : Type 0} (m : App A) : Type 0 where
  pub at : (w : World) → Kept w (m w).1

pub kept : (w : World) → Kept w w
kept w = record { approvals = refl; commands = refl }

pub Kept-trans : {u v w : World} → Kept u v → Kept v w → Kept u w
Kept-trans k l = record {
  approvals = l.approvals ∙ k.approvals;
  commands = l.commands ∙ k.commands;
}

module _ {A : Type 0} where
  pub Quiet-pure : (a : A) → Quiet {A = A} (pure a)
  Quiet-pure a = record { at = kept }

  pub Quiet-raise : (e : Error) → Quiet {A = A} (raise e)
  Quiet-raise e = record { at = kept }

  pub Quiet-lift : (r : Result A) → Quiet (lift r)
  Quiet-lift r = record { at = kept }

  pub Quiet-if : (b : Bool) (m n : App A) → Quiet m → Quiet n → Quiet (if b then m else n)
  Quiet-if true m n km kn = km
  Quiet-if false m n km kn = kn

pub Quiet-raise_if : (b : Bool) (e : Error) → Quiet (raise_if b e)
Quiet-raise_if true e = Quiet-raise e
Quiet-raise_if false e = Quiet-pure tt

pub Quiet-inc : (name : String) (labels : List String) → Quiet (inc name labels)
Quiet-inc name labels = record { at = λ w. record { approvals = refl; commands = refl } }

module _ {A : Type 0} (m : App A) (h : Error → App A) where
  pub Quiet-handled :
      (w : World) (r : Result A)
      → ((e : Error) → Quiet (h e))
      → Kept w (elim r as (λ _. Result A × World) [ ok a ↦ pure a w | err e ↦ h e w ]).1
  Quiet-handled w (ok a) kh = kept w
  Quiet-handled w (err e) kh = (kh e).at w

  pub Quiet-catch : Quiet m → ((e : Error) → Quiet (h e)) → Quiet (catch m h)
  Quiet-catch km kh = record { at = λ w. Kept-trans (km.at w) (Quiet-handled (m w).1 (m w).0 kh) }

module _ {A B : Type 0} (m : App A) (f : A → App B) where
  abbrev pub after : World → Result A → Result B × World
  after w r = elim r [ ok a ↦ f a w | err e ↦ raise e w ]

  pub Quiet-after : (w : World) (r : Result A) → ((a : A) → Quiet (f a)) → Kept w (after w r).1
  Quiet-after w (ok a) kf = (kf a).at w
  Quiet-after w (err e) kf = kept w

  pub Quiet-bind : Quiet m → ((a : A) → Quiet (f a)) → Quiet (m >>= f)
  Quiet-bind km kf = record { at = λ w. Kept-trans (km.at w) (Quiet-after (m w).1 (m w).0 kf) }

module _ (ext : External) where
  pub Quiet-record :
      (kind : AuditEventType) (k : String) (e : Entry) → Quiet (record_event ext kind k e)
  Quiet-record kind k e = record {
    at = λ w.
        let o = record_event-OnlyAudits ext kind k e w in
        record { approvals = o.approvals; commands = o.commands };
  }

  pub Quiet-clock : Quiet (read_clock ext)
  Quiet-clock = record { at = λ w. record { approvals = refl; commands = refl } }

  pub Quiet-uuid : Quiet (new_uuid ext)
  Quiet-uuid = record { at = λ w. record { approvals = refl; commands = refl } }

pub ruleset quiet_rules = (
  Quiet-pure, Quiet-raise, Quiet-lift, Quiet-if, Quiet-raise_if, Quiet-inc, Quiet-catch, Quiet-bind,
)
