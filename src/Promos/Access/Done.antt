-- ===== src/Promos/Access/Done.antt =====
-- What a request to the handlers of internal/promos/handler.go does, and the calls of the service.
use soa_hw.Prelude.{
  ℕ, ==_iff, find_sound, ◌≡◌, refl, sym, subst, ◌∙◌, ◌⊎◌, String, Option, none, some, find,
}
use soa_hw.Prelude.Int.{pos}
use soa_hw.Domain.Promo.{PromoCode}
use soa_hw.Store.{Env, Db, World}
use soa_hw.Store.Action.{Action}
use soa_hw.Store.Outcome.{
  Triple, Outside, Outside-IsSteady, Returns, Triple-bind, Triple-bind_fact, Triple-on_error,
  Triple-or_raise_last, Triple-pure, Triple-uuid_new, Triple-weaken,
}
use soa_hw.Store.Statements.{Triple-exec_select, Triple-exec_commit}
use soa_hw.Http.Reply.{Api, Reply, refused, created, answered, no_content}
use soa_hw.Promos.Repository as Repository
use soa_hw.Promos.Repository.{select_by_id, insert_promo, update_promo, delete_promo}
use soa_hw.Promos.Service as Service
use soa_hw.Promos.Valid.{IsValid, insert_promo-IsValid, update_promo-IsValid, delete_promo-IsValid}
use soa_hw.Promos.Changes.{
  promo_at, Sets, Inserts, Changes, insert_promo-Inserts, update_promo-Changes, delete_promo-Sets,
}
use soa_hw.Promos.Handler.{
  PromoCodeCreate, PromoCodeUpdate, new_promo, edit, create_promo_code, get_promo_code,
  update_promo_code, delete_promo_code,
}

pub data Request (F : Type 0) : Type 0 where
  posts : Option (PromoCodeCreate F) → Request F
  gets : String → Request F
  puts : String → Option (PromoCodeUpdate F) → Request F
  deletes : String → Request F

abbrev pub handle : {F : Type 0} → Env F → Api → String → Request F → Action F (Reply (PromoCode F))
handle env api role (posts body) = create_promo_code env api role body
handle env api role (gets id_text) = get_promo_code env api role id_text
handle env api role (puts id_text body) = update_promo_code env api role id_text body
handle env api role (deletes id_text) = delete_promo_code env api role id_text

module _ {F : Type 0} (env : Env F) (api : Api) (role : String) (db : Db F) where
  -- What a request has done when its reply is a success. There is none but these.
  abbrev pub Done : Request F → Reply (PromoCode F) → Db F → Type 0
  Done (posts body) (created p) d =
      (req : PromoCodeCreate F) × (body ≡ some req)
      × Inserts env db (record (new_promo req) { id = p.id }) d
  Done (gets id_text) (answered p) d =
      (d ≡ db) × ((id : ℕ) × (api.parse_uuid id_text ≡ some id) × (promo_at db id ≡ some p))
  Done (puts id_text body) (answered p) d =
      (req : PromoCodeUpdate F) × (old : PromoCode F) × (body ≡ some req)
      × (api.parse_uuid id_text ≡ some old.id)
      × (promo_at db old.id ≡ some old)
      × (p ≡ edit req old)
      × Changes env db old p d
  Done (deletes id_text) no_content d =
      (id : ℕ) × (api.parse_uuid id_text ≡ some id) × Sets db id none d
  Done _ _ d = ⊥

  -- A refusal leaves the tables; any other reply is to a seller or an admin, the request is done, and
  -- the table is valid.
  abbrev pub PromoReply : Request F → Reply (PromoCode F) → World F → Type 0
  PromoReply request (refused e) w = w.db ≡ db
  PromoReply request reply w =
      ((role ≡ "SELLER") ⊎ (role ≡ "ADMIN"))
      × IsValid env w.db.promo_codes
      × Done request reply w.db

  pub get_by_id-Triple :
      (id : ℕ)
      → Triple db
          (Outside db)
          (Service.get_by_id env id)
          (Returns (Outside db) (λ p. find (Repository.has_id id) db.promo_codes ≡ some p))
  unfolding Service.get_by_id Repository.get_by_id select_by_id
  get_by_id-Triple id =
      Triple-bind_fact
        (Triple-on_error _
          (Triple-exec_select env (select_by_id id) _ (Outside-IsSteady db) (λ n. refl)))
        λ found e.
          Triple-weaken (Triple-or_raise_last found _ (Outside-IsSteady db)) (λ w p. p)
            (λ a w r. (r.0, e ∙ r.1))

  own : (id : ℕ) (p : PromoCode F) → promo_at db id ≡ some p → p.id ≡ id
  own id p read = (==_iff p.id id).0 (find_sound (Repository.has_id id) db.promo_codes p read)

  pub read_own : (id : ℕ) (p : PromoCode F) → promo_at db id ≡ some p → promo_at db p.id ≡ some p
  read_own id p read = subst (λ k. promo_at db k ≡ some p) (sym (own id p read)) read

  -- The promo code that was read is the one that the request names.
  pub asked :
      (id : ℕ) (p : PromoCode F) (id_text : String)
      → api.parse_uuid id_text ≡ some id
      → promo_at db id ≡ some p
      → api.parse_uuid id_text ≡ some p.id
  asked id p id_text parsed read =
      subst (λ k. api.parse_uuid id_text ≡ some k) (sym (own id p read)) parsed

  module _ (valid : IsValid env db.promo_codes) where
    pub create-Triple :
        (p : PromoCode F)
        → Triple db (Outside db) (Service.create env p) (λ r w.
          IsValid env w.db.promo_codes
          × Inserts env db (record p { id = r.id; current_uses = pos 0 }) w.db)
    unfolding Service.create Repository.create
    create-Triple p = Triple-uuid_new env (Outside-IsSteady db) λ id.
        Triple-bind
          (Triple-on_error _ (
            Triple-exec_commit env (insert_promo env _)
              (λ _ d.
                IsValid env d.promo_codes
                × Inserts env db (record p { id = id; current_uses = pos 0 }) d)
              (λ n u d e.
                (insert_promo-IsValid env db _ n d e valid, insert_promo-Inserts env db _ n d e))))
          λ _. Triple-weaken (Triple-pure _) (λ w q. q) (λ a w q. q)

    pub update-Triple :
        (p old : PromoCode F)
        → promo_at db p.id ≡ some old
        → Triple db
            (Outside db)
            (Service.update env p)
            (λ _ w. IsValid env w.db.promo_codes × Changes env db old p w.db)
    unfolding Service.update Repository.update
    update-Triple p old found = Triple-on_error _ (
        Triple-exec_commit env (update_promo env p)
          (λ _ d. IsValid env d.promo_codes × Changes env db old p d)
          (λ n u d e. (
            update_promo-IsValid env db p n d e valid,
            update_promo-Changes env db p old n d found e,
          )))

    pub delete-Triple :
        (id : ℕ)
        → Triple db
            (Outside db)
            (Service.delete env id)
            (λ _ w. IsValid env w.db.promo_codes × Sets db id none w.db)
    unfolding Service.delete Repository.delete
    delete-Triple id = Triple-on_error _ (
        Triple-exec_commit env (delete_promo id)
          (λ _ d. IsValid env d.promo_codes × Sets db id none d)
          (λ n u d e.
            (delete_promo-IsValid env db id n d e valid, delete_promo-Sets env db id n d e)))
