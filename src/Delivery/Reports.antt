-- ===== src/Delivery/Reports.antt =====
-- What deliveries report to the health state (src/mvd_edge/app.py): nothing of the reader.
use mvd_edge_agent.Prelude.{
  ℕ, ◌≡◌, refl, ◌∙◌, Bool, true, false, Option, none, some, List, [], ◌∷◌, codes,
}
use mvd_edge_agent.Host.{Host}
use mvd_edge_agent.Health.{HealthState}
use mvd_edge_agent.Health.Coherence.{
  IsCoherent, report, report-IsCoherent, cloud_delivery, error_seen,
}
use mvd_edge_agent.Health.{mark_cloud_delivery, mark_error}
use mvd_edge_agent.Queue.{QueuedEvent, fetch_pending}
use mvd_edge_agent.Cloud.{CloudTransport}
use mvd_edge_agent.Delivery.{
  DeliveryState, tell_health, deliver, deliver_all, process_pending_deliveries,
  attempt_immediate_delivery,
}

-- What is said of the reader stays, and so does coherence.
pub record KeepsLink (s t : HealthState) : Type 0 where
  pub same_connected : t.reader_connected ≡ s.reader_connected
  pub same_state : t.reader_state ≡ s.reader_state
  pub still_coherent : IsCoherent s → IsCoherent t

abbrev pub KeepsLinks : Option HealthState → Option HealthState → Type 0
KeepsLinks none none = Unit
KeepsLinks (some s) (some t) = KeepsLink s t
KeepsLinks _ _ = ⊥

pub KeepsLink-trans : (s t u : HealthState) → KeepsLink s t → KeepsLink t u → KeepsLink s u
KeepsLink-trans s t u a b = record {
  same_connected = b.same_connected ∙ a.same_connected;
  same_state = b.same_state ∙ a.same_state;
  still_coherent = λ c. b.still_coherent (a.still_coherent c);
}

KeepsLinks-trans : (s t u : Option HealthState) → KeepsLinks s t → KeepsLinks t u → KeepsLinks s u
KeepsLinks-trans none none none a b = tt
KeepsLinks-trans none none (some u) a b = b
KeepsLinks-trans none (some t) u a b = elim a [ ]
KeepsLinks-trans (some s) none u a b = elim a [ ]
KeepsLinks-trans (some s) (some t) none a b = b
KeepsLinks-trans (some s) (some t) (some u) a b = KeepsLink-trans s t u a b

KeepsLinks-refl : (s : Option HealthState) → KeepsLinks s s
KeepsLinks-refl none = tt
KeepsLinks-refl (some s) = record {
  same_connected = refl;
  same_state = refl;
  still_coherent = λ c. c;
}

module _ (h : Host) where
  open h use {World}

  tell_health-KeepsLinks :
      (success : Bool) (health : Option HealthState) (w : World)
      → KeepsLinks health (tell_health h success health w).0
  unfolding tell_health mark_cloud_delivery mark_error report
  tell_health-KeepsLinks success none w = tt
  tell_health-KeepsLinks true (some s) w = record {
    same_connected = refl;
    same_state = refl;
    still_coherent = report-IsCoherent h cloud_delivery s w;
  }
  tell_health-KeepsLinks false (some s) w = record {
    same_connected = refl;
    same_state = refl;
    still_coherent = report-IsCoherent h (error_seen (codes "CLOUD_DELIVERY_FAILED")) s w;
  }

  deliver-KeepsLinks :
      (transport : CloudTransport) (event : QueuedEvent) (s : DeliveryState) (w : World)
      → KeepsLinks s.health (deliver h transport event s w).1.health
  unfolding deliver
  deliver-KeepsLinks transport event s w = tell_health-KeepsLinks _ s.health _

  deliver_all-KeepsLinks :
      (transport : CloudTransport) (events : List QueuedEvent) (s : DeliveryState) (w : World)
      → KeepsLinks s.health (deliver_all h transport events s w).1.health
  unfolding deliver_all
  deliver_all-KeepsLinks transport [] s w = KeepsLinks-refl s.health
  deliver_all-KeepsLinks transport (event ∷ events) s w =
      let next = deliver h transport event s w in
      KeepsLinks-trans s.health next.1.health _ (deliver-KeepsLinks transport event s w)
        (deliver_all-KeepsLinks transport events next.1 next.2)

  pub process-KeepsLinks :
      (transport : CloudTransport) (batch_size : ℕ) (s : DeliveryState) (w : World)
      → KeepsLinks s.health (process_pending_deliveries h transport batch_size s w).1.health
  unfolding process_pending_deliveries
  process-KeepsLinks transport batch_size s w =
      deliver_all-KeepsLinks transport (fetch_pending batch_size s.queue) s w

  pub attempt-KeepsLinks :
      (transport : CloudTransport) (batch_size : ℕ) (s : DeliveryState) (w : World)
      → KeepsLinks s.health (attempt_immediate_delivery h transport batch_size s w).1.health
  unfolding attempt_immediate_delivery
  attempt-KeepsLinks transport batch_size s w = process-KeepsLinks transport batch_size s w
