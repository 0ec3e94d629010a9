-- ===== src/Terraform/Closure/Data.antt =====
-- src/infrastructure/generators/terraform/mappings/aws.py: databases and load balancers: the
-- expressions in their blocks.
use topo_forge_ai.Terraform.Closure.Compute.{group-AttributesHave}
use topo_forge_ai.Terraform.Closure.{
  ValueHas, AttributesHave, references-ValueHas, items_of-ItemsHave, set_all-BlockHas, BlockHas,
  header_of-set_all, tags-ValueHas, reference-ValueHas, add-BlockHas, set_if-BlockHas,
  reference_if-ValueHas,
}
use topo_forge_ai.Terraform.Hcl.{HclValue, Block}
use topo_forge_ai.Prelude.{
  refl, some, none, [], true, false, inl, suc, ◌∷◌, String, Option, Bool, List, All, ℕ, ◌≡◌, ◌<>◌,
  All-append, arith, eq_iff, inr,
}
use topo_forge_ai.Terraform.Mapping.{
  MappingContext, Emission, references, terraform_identifier, emit_blocks, reference, number_text,
  text_if, reference_if,
}
use topo_forge_ai.Terraform.Closure.Emissions.{Grounds, IsSound, then_emit-IsSound}
use topo_forge_ai.Cloud.Resources.{Database, LoadBalancer, Listener}
use topo_forge_ai.Terraform.Mapping.Compute.{group_attribute}
use topo_forge_ai.Terraform.Mapping.Data.{
  map_database, map_database_in, text_value, map_load_balancer, map_balancer_in, map_listeners,
  listener_blocks, target_attachments, attach_target, balancer_groups, certificate, is_application,
}

module _ (K : String → Type 0) where
  text-ValueHas : (o : Option String) → ValueHas K (text_value o)
  text-ValueHas none = tt
  text-ValueHas (some t) = tt

  balancer_groups-AttributesHave :
      (b : Bool) (vs : List HclValue)
      → All (ValueHas K) vs
      → AttributesHave K (balancer_groups b vs)
  balancer_groups-AttributesHave true [] h = tt
  balancer_groups-AttributesHave true (v ∷ vs) h = (items_of-ItemsHave K (v ∷ vs) h, tt)
  balancer_groups-AttributesHave false vs h = tt

  certificate-AttributesHave : (o : Option String) → AttributesHave K (certificate o)
  certificate-AttributesHave none = tt
  certificate-AttributesHave (some c) = (tt, tt)

module _ (strip lower : String → String) {K : String → Type 0} {D : String → String → Type 0}
    {V : String → Type 0} {ctx : MappingContext} (g : Grounds K D V ctx) where
  abbrev Sound : Emission → Type 0
  Sound = IsSound K D V

  map_database_in-IsSound :
      (d : Database) (vs : List HclValue)
      → All (ValueHas K) vs
      → Sound (map_database_in strip lower d ctx vs)
  map_database_in-IsSound d [] h = λ _ _. tt
  map_database_in-IsSound d (a ∷ []) h = λ _ _. tt
  map_database_in-IsSound d (a ∷ b ∷ more) h = λ declared variables.
      let name = terraform_identifier strip lower d.resource.id in
      (
        set_all-BlockHas K _ _
            (tt, (items_of-ItemsHave K (a ∷ b ∷ more) h, (tags-ValueHas K _, tt))) (tt, tt),
        (
          set_all-BlockHas K _ _
              (
                tt,
                (
                  tt,
                  (
                    tt,
                    (
                      g.owned "aws_db_subnet_group" name "name"
                          (declared "aws_db_subnet_group" name (inl (header_of-set_all _ _))),
                      (All-append (λ a. ValueHas K a.1)
                            (group_attribute (references ctx d.security_group_ids)) _).1
                          (
                            group-AttributesHave K _
                                (references-ValueHas K ctx g.known d.security_group_ids),
                            (
                              tt,
                              (
                                tt,
                                (
                                  g.variable (name <> "_username") (
                                      variables _ (
                                        ground (
                                          arith,
                                          eq_iff (name <> "_username") (name <> "_username"),
                                        ))),
                                  (
                                    g.variable (name <> "_password") (
                                        variables _ (
                                          ground (
                                            arith,
                                            eq_iff (name <> "_password") (name <> "_password"),
                                          ))),
                                    (tags-ValueHas K _, tt),
                                  ),
                                ),
                              ),
                            ),
                          ),
                    ),
                  ),
                ),
              )
              (set_if-BlockHas K _ _ _ (text-ValueHas K d.engine_version)
                (set_all-BlockHas K _ _ (tt, (tt, tt)) (tt, tt))),
          tt,
        ),
      )

  pub map_database-IsSound : (d : Database) → Sound (map_database strip lower d ctx)
  unfolding map_database
  map_database-IsSound d =
      map_database_in-IsSound d (references ctx d.subnet_ids)
        (references-ValueHas K ctx g.known d.subnet_ids)

  attach_target-BlockHas :
      (group : String) (l : Listener) (id : String) (o : Option HclValue) (rest : List Block)
      → D "aws_lb_target_group" group
      → ((v : HclValue) → o ≡ some v → ValueHas K v)
      → All (BlockHas K) rest
      → All (BlockHas K) (attach_target strip lower group l id o rest)
  attach_target-BlockHas group l id none rest d h k = k
  attach_target-BlockHas group l id (some v) rest d h k = (
    set_all-BlockHas K _ _ (g.owned "aws_lb_target_group" group "arn" d, (h v refl, (tt, tt)))
        (tt, tt),
    k,
  )

  attachments-BlockHas :
      (group : String) (l : Listener) (ids : List String)
      → D "aws_lb_target_group" group
      → All (BlockHas K) (target_attachments strip lower group l ctx ids)
  attachments-BlockHas group l [] d = tt
  attachments-BlockHas group l (id ∷ ids) d =
      attach_target-BlockHas group l id (reference ctx id) _ d (reference-ValueHas K ctx g.known id)
        (attachments-BlockHas group l ids d)

  listener-IsSound :
      (b : LoadBalancer) (network : HclValue) (index : ℕ) (l : Listener)
      → D "aws_lb" (terraform_identifier strip lower b.resource.id)
      → ValueHas K network
      → Sound (emit_blocks (listener_blocks strip lower b ctx network index l))
  listener-IsSound b network index l d h declared variables =
      let group = terraform_identifier strip lower b.resource.id <> ("_tg_" <> number_text index) in
      let own_group = declared "aws_lb_target_group" group (inl (header_of-set_all _ _)) in
      (
        set_all-BlockHas K _ _ (tt, (tt, (tt, (h, (tags-ValueHas K _, tt))))) (tt, tt),
        (
          add-BlockHas K _ _
              (set_all-BlockHas K _ _
                (tt, (g.owned "aws_lb_target_group" group "arn" own_group, tt)) (tt, tt))
              (set_all-BlockHas K _ _
                (
                  g.owned "aws_lb" _ "arn" d,
                  (tt, (tt, certificate-AttributesHave K (text_if l.certificate_ref))),
                )
                (tt, tt)),
          attachments-BlockHas group l b.target_compute_ids own_group,
        ),
      )

  map_listeners-IsSound :
      (b : LoadBalancer) (network : Option HclValue)
      → D "aws_lb" (terraform_identifier strip lower b.resource.id)
      → ((v : HclValue) → network ≡ some v → ValueHas K v)
      → (index : ℕ) (ls : List Listener) → Sound (map_listeners strip lower b ctx network index ls)
  unfolding map_listeners
  map_listeners-IsSound b network d h index [] = λ _ _. tt
  map_listeners-IsSound b none d h index (l ∷ ls) = λ _ _. tt
  map_listeners-IsSound b (some v) d h index (l ∷ ls) =
      then_emit-IsSound K D V (emit_blocks (listener_blocks strip lower b ctx v index l))
        (map_listeners strip lower b ctx (some v) (suc index) ls)
        (listener-IsSound b v index l d (h v refl))
        (map_listeners-IsSound b (some v) d h (suc index) ls)

  map_balancer_in-IsSound :
      (b : LoadBalancer) (vs : List HclValue)
      → All (ValueHas K) vs
      → Sound (map_balancer_in strip lower b ctx vs)
  map_balancer_in-IsSound b [] h = λ _ _. tt
  map_balancer_in-IsSound b (v ∷ vs) h = λ declared variables.
      let own_balancer =
        declared "aws_lb" (terraform_identifier strip lower b.resource.id)
          (inl (header_of-set_all _ _)) in
      (
        set_all-BlockHas K _ _
            (
              tt,
              (
                tt,
                (
                  tt,
                  (
                    items_of-ItemsHave K (v ∷ vs) h,
                    (All-append (λ a. ValueHas K a.1)
                          (balancer_groups (is_application b.type)
                            (references ctx b.security_group_ids))
                          _).1
                        (
                          balancer_groups-AttributesHave K (is_application b.type) _
                              (references-ValueHas K ctx g.known b.security_group_ids),
                          (tags-ValueHas K _, tt),
                        ),
                  ),
                ),
              ),
            )
            (tt, tt),
        map_listeners-IsSound b (reference_if ctx b.network_id) own_balancer
            (reference_if-ValueHas K ctx g.known b.network_id) 0 b.listeners
            (λ t n d. declared t n (inr d)) variables,
      )

  pub map_load_balancer-IsSound : (b : LoadBalancer) → Sound (map_load_balancer strip lower b ctx)
  unfolding map_load_balancer
  map_load_balancer-IsSound b =
      map_balancer_in-IsSound b (references ctx b.subnet_ids)
        (references-ValueHas K ctx g.known b.subnet_ids)
