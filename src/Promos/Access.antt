-- ===== src/Promos/Access.antt =====
-- What requests to the handlers of internal/promos/handler.go do to the table of promo codes.
pub mod Done
use soa_hw.Prelude.{
  ℕ, ==_iff, find_sound, ◌≡◌, refl, sym, subst, ◌∙◌, ◌⊎◌, String, Option, none, some, [], find,
}
use soa_hw.Prelude.Int.{pos}
use soa_hw.Domain.Promo.{PromoCode}
use soa_hw.Store.{Env, Db, World}
use soa_hw.Store.Action.{Action}
use soa_hw.Store.Outcome.{
  Ends, Triple, Outside, Outside-IsSteady, Returns, Triple-bind, Triple-bind_fact, Triple-on_error,
  Triple-or_raise_last, Triple-pure, Triple-uuid_new, Triple-weaken,
}
use soa_hw.Store.Statements.{Triple-exec_select, Triple-exec_commit}
use soa_hw.Http.Errors.{new_validation_error}
use soa_hw.Http.Reply.{Api, Reply, refused, created, answered, no_content, service_error}
use soa_hw.Http.Reply.Rules.{
  Triple-attempt, Triple-unless, Triple-unless_err, Triple-unless_err_last, Triple-deny_if,
  trader_cases,
}
use soa_hw.Promos.Repository as Repository
use soa_hw.Promos.Repository.{select_by_id, insert_promo, update_promo, delete_promo}
use soa_hw.Promos.Service as Service
use soa_hw.Promos.Valid.{IsValid, insert_promo-IsValid, update_promo-IsValid, delete_promo-IsValid}
use soa_hw.Promos.Changes.{
  promo_at, Sets, Inserts, Changes, insert_promo-Inserts, update_promo-Changes, delete_promo-Sets,
}
use soa_hw.Promos.Handler.{
  PromoCodeCreate, PromoCodeUpdate, new_promo, edit, promo_code_not_found, create_promo_code,
  get_promo_code, update_promo_code, delete_promo_code,
}
use soa_hw.Promos.Access.Done.{
  Request, posts, gets, puts, deletes, handle, PromoReply, get_by_id-Triple, create-Triple,
  update-Triple, delete-Triple, read_own, asked,
}

module _ {F : Type 0} (env : Env F) (api : Api) (role : String) (db : Db F) where
  module _ (valid : IsValid env db.promo_codes) where
    post-Triple :
        (body : _)
        → Triple db
            (Outside db)
            (create_promo_code env api role body)
            (PromoReply env api role db (posts body))
    unfolding create_promo_code
    post-Triple body =
        Triple-deny_if db _ (λ w same. same)
          λ trader.
            Triple-unless db (new_validation_error "Invalid request body" []) body (λ w same. same)
              λ req is_body.
                Triple-bind
                  (Triple-attempt db _ (create-Triple env api role db valid (new_promo req)))
                  λ r.
                    Triple-unless_err_last db (service_error api 400) r created _ (λ e w same. same)
                      (λ p w h. (trader_cases role trader, h.0, (req, is_body, h.1)))

    get-Triple :
        (id_text : String)
        → Triple db
            (Outside db)
            (get_promo_code env api role id_text)
            (PromoReply env api role db (gets id_text))
    unfolding get_promo_code
    get-Triple id_text =
        Triple-deny_if db _ (λ w same. same)
          λ trader.
            Triple-unless db (new_validation_error "Invalid promo code ID" [])
              (api.parse_uuid id_text) (λ w same. same)
              λ id parsed.
                Triple-bind (Triple-attempt db _ (get_by_id-Triple env api role db id)) λ r.
                  Triple-unless_err_last db (λ _. promo_code_not_found) r answered _
                    (λ e w same. same)
                    (λ p w h. (
                      trader_cases role trader,
                      subst (λ d. IsValid env d.promo_codes) (sym h.0.same) valid,
                      (h.0.same, (id, parsed, h.1)),
                    ))

    put-Triple :
        (id_text : String) (body : Option (PromoCodeUpdate F))
        → Triple db
            (Outside db)
            (update_promo_code env api role id_text body)
            (PromoReply env api role db (puts id_text body))
    unfolding update_promo_code
    put-Triple id_text body =
        Triple-deny_if db _ (λ w same. same)
          λ trader.
            Triple-unless db (new_validation_error "Invalid promo code ID" [])
              (api.parse_uuid id_text) (λ w same. same)
              λ id parsed.
                Triple-bind (Triple-attempt db _ (get_by_id-Triple env api role db id)) λ found.
                  Triple-unless_err db (λ _. promo_code_not_found) found _ (λ e w same. same)
                    λ p read.
                      Triple-unless db (new_validation_error "Invalid request body" []) body
                        (λ w same. same)
                        λ req is_body.
                          Triple-bind
                            (Triple-attempt db _ (
                              update-Triple env api role db valid (edit req p) p
                                (read_own env api role db id p read)))
                            λ r.
                              Triple-unless_err_last db (service_error api 400) r
                                (λ _. answered (edit req p)) _ (λ e w same. same)
                                (λ _ w h. (
                                  trader_cases role trader,
                                  h.0,
                                  (
                                    req,
                                    p,
                                    is_body,
                                    asked env api role db id p id_text parsed read,
                                    read_own env api role db id p read,
                                    refl,
                                    h.1,
                                  ),
                                ))

    delete_code-Triple :
        (id_text : String)
        → Triple db
            (Outside db)
            (delete_promo_code env api role id_text)
            (PromoReply env api role db (deletes id_text))
    unfolding delete_promo_code
    delete_code-Triple id_text =
        Triple-deny_if db _ (λ w same. same)
          λ trader.
            Triple-unless db (new_validation_error "Invalid promo code ID" [])
              (api.parse_uuid id_text) (λ w same. same)
              λ id parsed.
                Triple-bind (Triple-attempt db _ (delete-Triple env api role db valid id)) λ r.
                  Triple-unless_err_last db (service_error api 500) r (λ _. no_content) _
                    (λ e w same. same) (λ _ w h. (trader_cases role trader, h.0, (id, parsed, h.1)))

    handle-Triple :
        (request : Request F)
        → Triple db (Outside db) (handle env api role request) (PromoReply env api role db request)
    handle-Triple (posts body) = post-Triple body
    handle-Triple (gets id_text) = get-Triple id_text
    handle-Triple (puts id_text body) = put-Triple id_text body
    handle-Triple (deletes id_text) = delete_code-Triple id_text

-- If the promo code under each identifier satisfies the constraints of its table (so that its uses are
-- at most its maximum, and its amounts and times are in order), then a request to the handlers of
-- promo codes keeps this so. The request is refused and leaves the tables as they were, or it comes
-- from a seller or an admin and is done: Create adds a code of the body (as the columns hold it)
-- without uses under the identifier of the reply, which had none; Get answers the code under the
-- identifier of the path; Update gives that code the terms of the body where it gives them, and its
-- name, type, uses and start stay; after Delete there is none. Every other identifier has the promo
-- code that it had.
pub handle-PromoReply :
    {F : Type 0} (env : Env F) (api : Api) (role : String) (request : Request F) (w : World F)
    → IsValid env w.db.promo_codes
    → Ends w.db (PromoReply env api role w.db request) (handle env api role request w)
handle-PromoReply env api role request w valid =
    (handle-Triple env api role w.db valid request).run w (record { same = refl })
