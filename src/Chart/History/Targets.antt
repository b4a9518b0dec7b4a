-- ===== src/Chart/History/Targets.antt =====
-- What a choice in the target selector asks for (web/src/components/TelemetryChart.tsx).
use ophanim.Base.{
  ◌≡◌, refl, ◌∙◌, ap, Bool, true, false, not, Option, List, [], ◌∷◌, ◌++◌, Text, codes, arith,
  ◌===◌, text_eq_instance, text_eq, text_eq_iff, starts_with, all, Bool-cases, inl, inr,
}
use ophanim.Types.{DeviceNode}
use ophanim.Chart.{
  TimeRange, range_name, host_prefix, history_device, is_host_target, history_node, history_url,
}
use ophanim.Chart.History.{device_target, request}

-- No device's identifier begins like the value of an option.
abbrev pub plain_id : DeviceNode → Bool
plain_id d = not (starts_with d.id host_prefix)

starts_with-host : (id : Text) → starts_with (host_prefix ++ id) host_prefix ≡ true
unfolding starts_with
starts_with-host id = refl

plain-ne :
    (s id : Text) → not (starts_with s host_prefix) ≡ true → (s === (host_prefix ++ id)) ≡ false
plain-ne s id h = elim (Bool-cases (s === (host_prefix ++ id))) [
  | inl e ↦
      let p : not (starts_with s host_prefix) ≡ false =
        ap (λ t. not (starts_with t host_prefix)) ((text_eq_iff s (host_prefix ++ id)).0 e)
        ∙ ap not (starts_with-host id) in
      cc
  | inr e ↦ e
]

host_prefix-injective : (s t : Text) → ((host_prefix ++ s) === (host_prefix ++ t)) ≡ (s === t)
unfolding text_eq
host_prefix-injective s t = refl

history_node-host :
    (devices : List DeviceNode) (id : Text)
    → all plain_id devices ≡ true
    → history_node (history_device devices (host_prefix ++ id)) (host_prefix ++ id) ≡ id
unfolding history_node history_device
history_node-host [] id h = rw (starts_with-host id) refl
history_node-host (d ∷ devices) id h = elim (Bool-cases (d.id === id)) [
  | inl e ↦
      rw (plain-ne d.id id (ground (arith, h)), host_prefix-injective d.id id, e)
        ((text_eq_iff d.id id).0 e)
  | inr e ↦
      rw (plain-ne d.id id (ground (arith, h)), host_prefix-injective d.id id, e)
        (history_node-host devices id (ground (arith, h)))
]

is_host_target-host :
    (o : Option DeviceNode) (id : Text) → is_host_target o (host_prefix ++ id) ≡ true
unfolding is_host_target
is_host_target-host o id = rw (starts_with-host id) (ground arith)

-- The option of a device asks for that device's history, whichever devices the request sees: they
-- may be a former list without the device, as long as no identifier among them begins with "host:".
-- The device that stands for the local host is left out, since its option is "host".
pub request-device_target :
    (encode : Text → Text) (devices : List DeviceNode) (d : DeviceNode) (r : TimeRange)
    → all plain_id devices ≡ true
    → (d.id === codes "local-lxc") ≡ false
    → (request encode devices (device_target d) r).url
      ≡ codes "/api/metrics/history?node_id=" ++ encode d.id ++ codes "&range=" ++ range_name r
unfolding request device_target history_url
request-device_target encode devices d r h other =
    rw
      (
        other,
        is_host_target-host (history_device devices (host_prefix ++ d.id)) d.id,
        history_node-host devices d.id h,
      )
      refl
