-- ===== src/Resources/Inventory/Kinds/Classes.antt =====
-- Which class an entry of the cluster definition becomes.
use ocudu_infra_srs.Prelude.{◌≡◌, inl, inr, true, false, Option, some, Bool-cases}
use ocudu_infra_srs.Prelude.Text.{text, text_eq}
use ocudu_infra_srs.Prelude.Action.{Result, ok, raised}
use ocudu_infra_srs.Prelude.Outcome.{◌>>=◌}
use ocudu_infra_srs.Resources.{ConnectionType, Kind, is_cluster_kind}
use ocudu_infra_srs.Resources.Inventory.Kinds.{
  Entry, cluster_kind, node_kind, item, connection_item,
}

-- A successful bind goes on.
on_ok :
    {A B : Type 0} {f : A → Result B} {b : B} {Q : Type 0} (r : Result A)
    → (r >>= f) ≡ ok b
    → ((a : A) → f a ≡ ok b → Q)
    → Q
on_ok (ok a) h k = k a h
on_ok (raised e) h k = cc

pub cluster_kind-is_cluster_kind :
    (e : Entry) {k : Kind} → cluster_kind e ≡ ok (some k) → is_cluster_kind k ≡ true
unfolding cluster_kind
cluster_kind-is_cluster_kind e {k} h = elim (Bool-cases (text_eq e.type (text "license"))) [
  | inl e0 ↦
      on_ok (item e (text "address")) (rw e0 at h)
        (λ _ k. on_ok (item e (text "args")) k (λ _ k. cc))
  | inr e0 ↦ elim (Bool-cases (text_eq e.type (text "remote"))) [
    | inl e1 ↦ on_ok (item e (text "user")) (rw (e0, e1) at h) (λ _ k.
        on_ok (item e (text "password")) k (λ _ k.
          on_ok (item e (text "address")) k (λ _ k. on_ok (item e (text "path")) k (λ _ k. cc))))
    | inr e1 ↦ elim (Bool-cases (text_eq e.type (text "api"))) [
      | inl e2 ↦
          on_ok (item e (text "address")) (rw (e0, e1, e2) at h)
            (λ _ k. on_ok (item e (text "port")) k (λ _ k. cc))
      | inr e2 ↦ elim (Bool-cases (text_eq e.type (text "core"))) [
        | inl e3 ↦ on_ok (item e (text "address")) (rw (e0, e1, e2, e3) at h) (λ _ k.
            on_ok (item e (text "port")) k (λ _ k. on_ok (item e (text "mask")) k (λ _ k. cc)))
        | inr e3 ↦ let k = rw (e0, e1, e2, e3) at h in cc
      ]
    ]
  ]
]

pub node_kind-is_cluster_kind :
    (e : Entry) {k : Kind} {c : Option ConnectionType}
    → node_kind e ≡ ok (some (k, c))
    → is_cluster_kind k ≡ false
unfolding node_kind
node_kind-is_cluster_kind e {k} {c} h = elim (Bool-cases (text_eq e.type (text "sdr"))) [
  | inl e0 ↦ on_ok (connection_item e) (rw e0 at h) (λ _ k. on_ok (item e (text "args")) k (λ _ k.
      on_ok (item e (text "sample_rate")) k (λ _ k. on_ok (item e (text "tx_gain")) k (λ _ k.
        on_ok (item e (text "rx_gain")) k (λ _ k. on_ok (item e (text "sync")) k (λ _ k. cc))))))
  | inr e0 ↦ elim (Bool-cases (text_eq e.type (text "android"))) [
    | inl e1 ↦ on_ok (connection_item e) (rw (e0, e1) at h) (λ _ k.
        on_ok (item e (text "serial_id")) k (λ _ k. on_ok (item e (text "imsi")) k (λ _ k.
          on_ok (item e (text "k")) k (λ _ k. on_ok (item e (text "amf")) k (λ _ k.
            on_ok (item e (text "opc")) k
              (λ _ k. on_ok (item e (text "adb_key")) k (λ _ k. cc)))))))
    | inr e1 ↦ elim (Bool-cases (text_eq e.type (text "ru"))) [
      | inl e2 ↦ on_ok (item e (text "network_interface")) (rw (e0, e1, e2) at h) (λ _ k.
          on_ok (item e (text "du_mac_addr")) k (λ _ k.
            on_ok (item e (text "ru_mac_addr")) k (λ _ k.
              on_ok (item e (text "vlan_tag_up")) k (λ _ k.
                on_ok (item e (text "vlan_tag_cp")) k (λ _ k.
                  on_ok (item e (text "prach_port_id")) k (λ _ k.
                    on_ok (item e (text "dl_port_id")) k
                      (λ _ k. on_ok (item e (text "ul_port_id")) k (λ _ k. cc))))))))
      | inr e2 ↦ elim (Bool-cases (text_eq e.type (text "accelerator"))) [
        | inl e3 ↦ on_ok (item e (text "hwacc_type")) (rw (e0, e1, e2, e3) at h) (λ _ k.
            on_ok (item e (text "accelerator_id")) k (λ _ k.
              on_ok (item e (text "pdsch_enc_nof_hwacc")) k (λ _ k.
                on_ok (item e (text "cb_mode")) k (λ _ k.
                  on_ok (item e (text "pusch_dec_nof_hwacc")) k
                    (λ _ k. on_ok (item e (text "harq_context_size")) k (λ _ k. cc))))))
        | inr e3 ↦ elim (Bool-cases (text_eq e.type (text "zmq"))) [
          | inl e4 ↦ let k = rw (e0, e1, e2, e3, e4) at h in cc
          | inr e4 ↦ let k = rw (e0, e1, e2, e3, e4) at h in cc
        ]
      ]
    ]
  ]
]
