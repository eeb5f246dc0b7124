-- ===== src/Network/Ports.antt =====
-- What `reserve_port` gives.
use ocudu_infra_srs.Prelude.{
  ℕ, zero, suc, ◌+◌, ◌≤◌, ◌<◌, ◌≡◌, ◌≢◌, refl, sym, ap, subst, ◌∙◌, ◌⊎◌, inl, inr, false, none,
  some, List, [], ◌∷◌, arith, if◌then◌else◌, In, length,
}
use ocudu_infra_srs.Prelude.Text.{Text, text_eq}
use ocudu_infra_srs.Prelude.Action.{Result, ok, raised, value_error}
use ocudu_infra_srs.Cluster.{
  Platform, ErrorCode, equals_ok, manifest, ConfigmapConfig, create_config_map,
}
use ocudu_infra_srs.Cluster.Laws.{
  IsLawful, config_map_at, CreateEffect, create_config_map-CreateEffect,
}
use ocudu_infra_srs.Network.{
  number_port_init, number_of_ports, get_port_configmap_name, port_config, draw, claim_port,
  port_round, after_port_round, port_loop, possible_ports, reserve_port,
}
use ocudu_infra_srs.Network.Draw.{
  IsPick, pop_at-IsPick, possible_ports-In, In-possible_ports, length-possible_ports,
}

-- `randint(0, n)` is between 0 and n, and changes no config map.
pub record IsRandint (p : Platform) (randint : ℕ → p.World → ℕ × p.World) : Type 0 where
  pub bounded : (n : ℕ) (w : p.World) → (randint n w).0 ≤ n
  pub quiet :
      (n : ℕ) (w : p.World) (name : Text)
      → config_map_at p (randint n w).1 name ≡ config_map_at p w name

-- The API server creates a config map whose name is free.
abbrev pub Serves : Platform → Type 0
Serves p =
    (c : ConfigmapConfig) (w : p.World)
    → config_map_at p w c.name ≡ none
    → (create_config_map p c w).0 ≡ ok ErrorCode.is_ok

abbrev pub SameMaps : (p : Platform) → p.World → p.World → Type 0
SameMaps p w w' = (name : Text) → config_map_at p w' name ≡ config_map_at p w name

-- The config map of the port was not there, is there now for the caller, and no other changed.
abbrev pub TakesPort : (p : Platform) → Text → Text → ℕ → p.World → p.World → Type 0
TakesPort p orch_id user_name n w w' =
    (config_map_at p w (get_port_configmap_name n) ≡ none)
    × ((name : Text)
        → config_map_at p w' name ≡ (
            if text_eq (get_port_configmap_name n) name
            then some (manifest (port_config orch_id user_name n))
            else config_map_at p w name))

-- One round takes a port of the list, or crosses one off that was refused; on no ports it raises ValueError.
abbrev pub RoundEffect :
    (p : Platform) → Text → Text → List ℕ → p.World → Result (ℕ ⊎ List ℕ) × p.World → Type 0
RoundEffect p orch_id user_name ports w (r, w') =
    ((n : ℕ) × (r ≡ ok (inl n)) × In n ports × TakesPort p orch_id user_name n w w')
    ⊎ ((n : ℕ) × (rest : List ℕ) × (v : p.World) × (r ≡ ok (inr rest))
        × IsPick ports n rest
        × SameMaps p w w'
        × SameMaps p w v
        × ((create_config_map p (port_config orch_id user_name n) v).0 ≢ ok ErrorCode.is_ok))
    ⊎ ((ports ≡ []) × (r ≡ raised value_error) × (w ≡ w'))

-- How the loop ends: with a port, or with ValueError when no port is left and each create was refused.
abbrev pub Ends :
    (p : Platform) → Text → Text → (ℕ → Type 0) → List ℕ → p.World → Result ℕ × p.World → Type 0
Ends p orch_id user_name Busy ports w (r, w') =
    ((n : ℕ) × (r ≡ ok n) × In n ports × TakesPort p orch_id user_name n w w')
    ⊎ ((r ≡ raised value_error) × SameMaps p w w' × ((n : ℕ) → In n ports → Busy n))

-- How `reserve_port` ends: with a port of the range, or with ValueError and no config map changed.
abbrev pub PortOutcome : (p : Platform) → Text → Text → p.World → Result ℕ × p.World → Type 0
PortOutcome p orch_id user_name w (r, w') =
    ((n : ℕ) × (r ≡ ok n)
      × (number_port_init ≤ n)
      × (n < number_port_init + number_of_ports)
      × TakesPort p orch_id user_name n w w')
    ⊎ ((r ≡ raised value_error) × SameMaps p w w')

module _ {p : Platform} (law : IsLawful p) (randint : ℕ → p.World → ℕ × p.World)
    (fair : IsRandint p randint) (orch_id user_name : Text) where
  not_ok :
      (n : ℕ) (v : p.World) {v' : p.World} (code : ErrorCode) (r : Result ErrorCode)
      → equals_ok code ≡ false
      → create_config_map p (port_config orch_id user_name n) v ≡ (r, v')
      → r ≡ ok code
      → (create_config_map p (port_config orch_id user_name n) v).0 ≢ ok ErrorCode.is_ok
  not_ok n v ErrorCode.is_ok r no_ok e answer good = cc
  not_ok n v ErrorCode.other r no_ok e answer good = let k = ap (λ x. x.0) e in cc
  not_ok n v ErrorCode.name_duplicated r no_ok e answer good = let k = ap (λ x. x.0) e in cc
  not_ok n v ErrorCode.unprocessable_entity r no_ok e answer good = let k = ap (λ x. x.0) e in cc

  claim_effect :
      (ports : List ℕ) (n : ℕ) (rest : List ℕ) (w v : p.World) (r : Result ErrorCode × p.World)
      → IsPick ports n rest
      → SameMaps p w v
      → create_config_map p (port_config orch_id user_name n) v ≡ r
      → CreateEffect p (port_config orch_id user_name n) v r
      → RoundEffect p orch_id user_name ports w (claim_port p randint orch_id user_name (n, rest) v)
  unfolding claim_port
  claim_effect ports n rest w v (r, v') pick same e (inl (answer, free, put)) =
      rw (e, answer)
        (inl (
          n,
          refl,
          pick.picked,
          (sym (same (get_port_configmap_name n)) ∙ free, λ name. rw (← same name) (put name)),
        ))
  claim_effect ports n rest w v (r, v') pick same e (inr (code, answer, no_ok, kept)) =
      rw (e, answer)
        (inr (
          inl (
            n,
            rest,
            v,
            rw no_ok refl,
            pick,
            λ name. kept name ∙ same name,
            same,
            not_ok n v code r no_ok e answer,
          )))

  draw_effect :
      (ports : List ℕ) (w : p.World)
      → RoundEffect p orch_id user_name ports w (port_round p randint orch_id user_name ports w)
  unfolding port_round draw
  draw_effect [] w = inr (inr (refl, refl, refl))
  draw_effect (x ∷ xs) w =
      let (i, v) = randint (length xs) w in
      let (n, rest, e, pick) =
        pop_at-IsPick i (x ∷ xs) (omega (arith, fair.bounded (length xs) w)) in
      rw e (
        claim_effect (x ∷ xs) n rest w v _ pick (fair.quiet (length xs) w) refl
          (create_config_map-CreateEffect law (port_config orch_id user_name n) v))

  pub port_round-RoundEffect :
      (ports : List ℕ) (w : p.World)
      → RoundEffect p orch_id user_name ports w (port_round p randint orch_id user_name ports w)
  port_round-RoundEffect = draw_effect

  module _ (w0 : p.World) (Busy : ℕ → Type 0)
      (busy : (n : ℕ) (v : p.World)
        → SameMaps p w0 v
        → (create_config_map p (port_config orch_id user_name n) v).0 ≢ ok ErrorCode.is_ok
        → Busy n) where
    Ends-shift :
        (ports rest : List ℕ) (n : ℕ) (w w' : p.World) (r : Result ℕ × p.World)
        → IsPick ports n rest
        → Busy n
        → SameMaps p w w'
        → Ends p orch_id user_name Busy rest w' r
        → Ends p orch_id user_name Busy ports w r
    Ends-shift ports rest n w w' (r, v) pick b same (inl (m, e, i, (free, put))) = inl (
      m,
      e,
      pick.kept m i,
      (sym (same (get_port_configmap_name m)) ∙ free, λ name. rw (← same name) (put name)),
    )
    Ends-shift ports rest n w w' (r, v) pick b same (inr (e, kept, all)) = inr (
      e,
      λ name. kept name ∙ same name,
      λ m i. elim (pick.split m i) [ inl k ↦ subst Busy (sym k) b | inr j ↦ all m j ],
    )

    abbrev Concludes : ℕ → List ℕ → p.World → Type 0
    Concludes fuel ports w =
        (r : Result ℕ × p.World) × (port_loop p randint orch_id user_name fuel ports w ≡ some r)
        × Ends p orch_id user_name Busy ports w r

    round_outcome :
        (fuel : ℕ) (ports : List ℕ) (w : p.World) (x : Result (ℕ ⊎ List ℕ) × p.World)
        → length ports < suc fuel
        → SameMaps p w0 w
        → ((rest : List ℕ) (v : p.World)
            → length rest < fuel
            → SameMaps p w0 v
            → Concludes fuel rest v)
        → RoundEffect p orch_id user_name ports w x
        → (r : Result ℕ × p.World) × (after_port_round p randint
              (port_loop p randint orch_id user_name fuel)
              x
            ≡ some r)
          × Ends p orch_id user_name Busy ports w r
    round_outcome fuel ports w (x, w') h same ih (inl (n, e, i, take)) =
        rw e ((ok n, w'), refl, inl (n, refl, i, take))
    round_outcome fuel ports w (x, w') h same ih
          (inr (inl (n, rest, v, e, pick, quiet, quiet', failed))) =
        let again : (name : Text) → config_map_at p w' name ≡ config_map_at p w0 name =
          λ name. quiet name ∙ same name in
        let (r, k, ends) = ih rest w' (omega (arith, pick.shorter)) again in
        rw e (
          r,
          k,
          Ends-shift ports rest n w w' r pick (busy n v (λ name. quiet' name ∙ same name) failed)
              quiet ends,
        )
    round_outcome fuel ports w (x, w') h same ih (inr (inr (empty, e, still))) = rw e (
      (raised value_error, w'),
      refl,
      inr (
        refl,
        λ name. ap (λ v. config_map_at p v name) (sym still),
        λ n i. elim (subst (In n) empty i) [ ],
      ),
    )

    loop_outcome :
        (fuel : ℕ) (ports : List ℕ) (w : p.World)
        → length ports < fuel
        → SameMaps p w0 w
        → Concludes fuel ports w
    unfolding port_loop
    loop_outcome zero ports w h same = absurd (omega arith)
    loop_outcome (suc fuel) ports w h same =
        round_outcome fuel ports w (port_round p randint orch_id user_name ports w) h same
          (loop_outcome fuel) (draw_effect ports w)

    all_tried :
        (r : Result ℕ × p.World) × (reserve_port p randint 701 orch_id user_name w0 ≡ some r)
        × Ends p orch_id user_name Busy possible_ports w0 r
    unfolding reserve_port
    all_tried =
        loop_outcome 701 possible_ports w0 (omega (arith, length-possible_ports)) (λ name. refl)

  outcome_of :
      (Busy : ℕ → Type 0) (w : p.World) (r : Result ℕ × p.World)
      → Ends p orch_id user_name Busy possible_ports w r
      → PortOutcome p orch_id user_name w r
  outcome_of Busy w (r, w') (inl (n, e, i, take)) =
      let (a, b) = possible_ports-In n i in inl (n, e, a, b, take)
  outcome_of Busy w (r, w') (inr (e, same, all)) = inr (e, same)

-- reserve_port always ends within 701 rounds. It returns a port from 32000 to 32699 whose config map was not there
-- before and is there now for the caller with no other changed, or raises ValueError with none changed.
pub reserve_port-PortOutcome :
    {p : Platform}
    → IsLawful p
    → (randint : ℕ → p.World → ℕ × p.World) → IsRandint p randint
    → (orch_id user_name : Text) (w : p.World)
    → (r : Result ℕ × p.World) × (reserve_port p randint 701 orch_id user_name w ≡ some r)
      × PortOutcome p orch_id user_name w r
reserve_port-PortOutcome law randint fair orch_id user_name w =
    let (r, e, ends) =
      all_tried law randint fair orch_id user_name w (λ n. Unit) (λ n v same no. tt) in
    (r, e, outcome_of law randint fair orch_id user_name _ w r ends)

taken_port :
    (p : Platform) (randint : ℕ → p.World → ℕ × p.World) (orch_id user_name : Text) (m : ℕ)
    (w : p.World) (r : Result ℕ × p.World)
    → In m possible_ports
    → config_map_at p w (get_port_configmap_name m) ≡ none
    → reserve_port p randint 701 orch_id user_name w ≡ some r
    → Ends p orch_id user_name
        (λ n. config_map_at p w (get_port_configmap_name n) ≢ none)
        possible_ports
        w
        r
    → (n : ℕ) × (w' : p.World) × (reserve_port p randint 701 orch_id user_name w ≡ some (ok n, w'))
      × TakesPort p orch_id user_name n w w'
taken_port p randint orch_id user_name m w (r, w') i free e (inl (n, k, j, take)) =
    (n, w', e ∙ ap (λ x. some (x, w')) k, take)
taken_port p randint orch_id user_name m w (r, w') i free e (inr (k, same, all)) =
    absurd (all m i free)

-- While the API server creates what is free, reserve_port returns a port as soon as one of the range
-- is free.
pub reserve_port_live :
    {p : Platform}
    → IsLawful p
    → Serves p
    → (randint : ℕ → p.World → ℕ × p.World) → IsRandint p randint
    → (orch_id user_name : Text) (w : p.World) (m : ℕ) → number_port_init ≤ m
    → m < number_port_init + number_of_ports
    → config_map_at p w (get_port_configmap_name m) ≡ none
    → (n : ℕ) × (w' : p.World) × (reserve_port p randint 701 orch_id user_name w ≡ some (ok n, w'))
      × TakesPort p orch_id user_name n w w'
reserve_port_live {p} law serves randint fair orch_id user_name w m a b free =
    let (r, e, ends) =
      all_tried law randint fair orch_id user_name w
        (λ n. config_map_at p w (get_port_configmap_name n) ≢ none)
        (λ n v same no absent. no (
          serves (port_config orch_id user_name n) v
            (same (get_port_configmap_name n) ∙ absent))) in
    taken_port p randint orch_id user_name m w r (In-possible_ports m a b) free e ends
