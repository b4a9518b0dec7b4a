-- ===== src/App/Data/Laws.antt =====
-- What polling and pushed messages leave in the shell's data (web/src/App.tsx), and what the
-- dashboard then shows of it (web/src/pages/Dashboard.tsx).
use ophanim.Base.{
  ◌≡◌, refl, ap, sym, ◌∙◌, or_text, codes, Option, none, some, [], ◌∷◌, Text, ◌===◌,
  text_eq_instance, text_eq_iff, text_eq_refl, text_eq, arith, Bool-cases, inl, inr, if◌then◌else◌,
}
use ophanim.Types.{HostMetrics}
use ophanim.Dashboard.Nodes.{is_local, local_lxc, local, active_metrics}
use ophanim.App.Data.{
  NodeMetrics, DataState, entry, first_entry, local_entry, or_else, sends, fetch_host_metrics,
  put_entry, metrics_node, metrics_updated, on_message,
}

entry-put_entry :
    (j key : Text) (m : HostMetrics) (ns : NodeMetrics)
    → entry j (put_entry key m ns) ≡ (if key === j then some m else entry j ns)
unfolding entry put_entry
entry-put_entry j key m [] = refl
entry-put_entry j key m ((k, n) ∷ ns) = elim (Bool-cases (k === key)) [
  | inl e ↦ rw e (ground (arith, text_eq_iff k key, text_eq_iff k j, text_eq_iff key j))
  | inr e ↦ rw e (
      ground
        (arith, entry-put_entry j key m ns, text_eq_iff k key, text_eq_iff k j, text_eq_iff key j))
]

active_metrics-found :
    (samples : Text → Option HostMetrics) (metrics : Option HostMetrics) (i : Text)
    (m : HostMetrics)
    → samples i ≡ some m
    → active_metrics samples metrics i ≡ some m
unfolding active_metrics
active_metrics-found samples metrics i m h = rw (h, active_metrics) refl

active_metrics-missing :
    (samples : Text → Option HostMetrics) (metrics : Option HostMetrics)
    → samples local_lxc ≡ none
    → active_metrics samples metrics local_lxc ≡ metrics
unfolding active_metrics is_local text_eq
active_metrics-missing samples metrics h = rw (h, active_metrics) refl

-- The node that a sample names; a sample without a name is the local host's.
abbrev pub sample_node : HostMetrics → Text
sample_node m = elim m.node_id [ [] ↦ codes "local-lxc" | c ∷ t ↦ c ∷ t ]

sample_node-metrics_node : (m : HostMetrics) → metrics_node m ≡ sample_node m
unfolding metrics_node
sample_node-metrics_node m = go m.node_id
  where
    go :
        (t : Text)
        → or_text t (codes "local-lxc") ≡ elim t [ [] ↦ codes "local-lxc" | c ∷ s ↦ c ∷ s ]
    go [] = refl
    go (c ∷ t) = refl

-- A pushed sample is found under the node that it names, or under the local host when it names
-- none, and changes no other node's entry; the dashboard then shows it for its node, and the
-- containers, incidents and devices stay.
pub on_message-metrics :
    (m : HostMetrics) (j : Text) (s : DataState)
    → (entry j (on_message (metrics_updated m) s).0.node_metrics
        ≡ (if sample_node m === j then some m else entry j s.node_metrics))
      × (active_metrics
            (λ i. entry i (on_message (metrics_updated m) s).0.node_metrics)
            (on_message (metrics_updated m) s).0.metrics
            (sample_node m)
          ≡ some m)
      × ((on_message (metrics_updated m) s).0.containers ≡ s.containers)
      × ((on_message (metrics_updated m) s).0.incidents ≡ s.incidents)
      × ((on_message (metrics_updated m) s).0.devices ≡ s.devices)
unfolding on_message
on_message-metrics m j s = (
  entry-put_entry j (metrics_node m) m s.node_metrics
      ∙ ap (λ k. if k === j then some m else entry j s.node_metrics) (sample_node-metrics_node m),
  ap
        (λ k.
          active_metrics (λ i. entry i (put_entry (metrics_node m) m s.node_metrics))
            (on_message (metrics_updated m) s).0.metrics k)
        (sym (sample_node-metrics_node m))
      ∙ shown,
  refl,
  refl,
  refl,
)
  where
    found : entry (metrics_node m) (put_entry (metrics_node m) m s.node_metrics) ≡ some m
    found =
        entry-put_entry (metrics_node m) (metrics_node m) m s.node_metrics
        ∙ rw (text_eq_refl (metrics_node m)) refl

    shown :
        active_metrics
          (λ i. entry i (put_entry (metrics_node m) m s.node_metrics))
          (on_message (metrics_updated m) s).0.metrics
          (metrics_node m)
        ≡ some m
    shown = active_metrics-found _ _ (metrics_node m) m found

-- When no entry of a poll is the local node's, the first entry, of whatever node, becomes the
-- local host's metrics, and the dashboard shows it for the local node.
fetch_host_metrics-first :
    (k : Text) (m : HostMetrics) (ns : NodeMetrics) (s : DataState)
    → entry local_lxc ((k, m) ∷ ns) ≡ none
    → entry local ((k, m) ∷ ns) ≡ none
    → active_metrics
        (λ i. entry i (fetch_host_metrics (sends (some ((k, m) ∷ ns))) s).node_metrics)
        (fetch_host_metrics (sends (some ((k, m) ∷ ns))) s).metrics
        local_lxc
      ≡ some m
unfolding fetch_host_metrics
fetch_host_metrics-first k m ns s h l =
    active_metrics-missing (λ i. entry i ((k, m) ∷ ns))
      (or_else (local_entry ((k, m) ∷ ns)) s.metrics) h
    ∙ unfold local_entry first_entry in rw (h, l) refl
