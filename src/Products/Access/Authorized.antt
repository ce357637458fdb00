-- ===== src/Products/Access/Authorized.antt =====
-- What it means that a request to the handlers of internal/products/handler.go is authorized.
use soa_hw.Prelude.{
  find_sound, ==_iff, ℕ, ◌≡◌, subst, refl, sym, ◌⊎◌, inl, inr, true, false, not-true, Bool-cases,
  String, str_eq, Option, none, some, find,
}
use soa_hw.Domain.{Product}
use soa_hw.Store.{Env, Db, World}
use soa_hw.Store.Action.{Action}
use soa_hw.Http.Reply.{Api, Reply, refused, created, answered, no_content, is_no_trader}
use soa_hw.Http.Reply.Rules.{str_eq-true, trader_cases}
use soa_hw.Products.Repository.{has_id}
use soa_hw.Products.Handler.{
  ProductCreate, ProductUpdate, is_foreign, may_not_change, new_product, edit, create_product,
  update_product, delete_product,
}
use soa_hw.Products.Catalogue.{Catalogue, catalogue, Puts, SameOrigin, IsStored, IsArchived}
use soa_hw.Products.Catalogue.Refines.{Creates, Edits}

-- A request that may change the catalogue.
pub data Request (F : Type 0) : Type 0 where
  posts : Option (ProductCreate F) → Request F
  puts : String → Option (ProductUpdate F) → Request F
  deletes : String → Request F

module _ {F : Type 0} (env : Env F) (api : Api) (user_id role : String) where
  abbrev pub handle : Request F → Action F (Reply (Product F))
  handle (posts body) = create_product env api user_id role body
  handle (puts id_text body) = update_product env api user_id role id_text body
  handle (deletes id_text) = delete_product env api user_id role id_text

-- The user is an admin or the product's seller.
abbrev pub MayEdit : {F : Type 0} → Api → String → String → Product F → Type 0
MayEdit api user_id role old =
    (role ≡ "ADMIN")
    ⊎ ((seller : ℕ) × (old.seller_id ≡ some seller) × (api.uuid_text seller ≡ user_id))

module _ {F : Type 0} (env : Env F) (api : Api) (user_id role : String) (request : Request F) where
  -- The user sells products, and the catalogue has one more of theirs: that of the request's body.
  pub record Adds (reply : Product F) (c c' : Catalogue F) : Type 0 where
    pub trader : (role ≡ "SELLER") ⊎ (role ≡ "ADMIN")
    pub seller : ℕ
    pub is_user : api.parse_uuid user_id ≡ some seller
    pub body : ProductCreate F
    pub is_body : request ≡ posts (some body)
    pub product : Product F
    pub is_seller : product.seller_id ≡ some seller
    pub is_stored : IsStored env (new_product seller body) product
    pub is_reply : product.id ≡ reply.id
    pub fresh : c product.id ≡ none
    pub puts : Puts c product.id product c'

  -- One product was changed, which the user may edit.
  pub record Alters (Asked : Product F → Product F → Type 0) (c c' : Catalogue F) : Type 0 where
    pub old : Product F
    pub product : Product F
    pub found : c old.id ≡ some old
    pub may : MayEdit api user_id role old
    pub same : SameOrigin product old
    pub asked : Asked old product
    pub puts : Puts c old.id product c'

  -- The request asks for this change of a product: to the details of its body.
  abbrev pub AsksUpdate : Product F → Product F → Type 0
  AsksUpdate old product =
      (id_text : String) × (body : ProductUpdate F) × (request ≡ puts id_text (some body))
      × (api.parse_uuid id_text ≡ some old.id)
      × IsStored env (edit body old) product

  -- The request asks for the product to be archived.
  abbrev pub AsksDelete : Product F → Product F → Type 0
  AsksDelete old product =
      (id_text : String) × (request ≡ deletes id_text)
      × (api.parse_uuid id_text ≡ some old.id)
      × IsArchived old product

  abbrev pub IsAuthorized : Catalogue F → Db F → Reply (Product F) → World F → Type 0
  IsAuthorized c db (refused e) w = w.db ≡ db
  IsAuthorized c db (created p) w = Adds p c (catalogue w.db)
  IsAuthorized c db (answered p) w = Alters AsksUpdate c (catalogue w.db)
  IsAuthorized c db no_content w = Alters AsksDelete c (catalogue w.db)

module _ (api : Api) (user_id : String) where
  seller_cases :
      (s : Option ℕ)
      → is_foreign api s user_id ≡ false
      → (seller : ℕ) × (s ≡ some seller) × (api.uuid_text seller ≡ user_id)
  seller_cases none h = absurd (not_foreign h)
    where
      not_foreign : ¬ (true ≡ false)
      not_foreign e = cc
  seller_cases (some seller) h = (seller, refl, str_eq-true _ user_id (not-true _ h))

  editor_cases :
      {F : Type 0} (role : String) (old : Product F)
      → may_not_change api user_id role old ≡ false
      → MayEdit api user_id role old
  editor_cases role old h = elim (Bool-cases (str_eq role "ADMIN")) [
    | inl e ↦ inl (str_eq-true role "ADMIN" e)
    | inr e ↦ inr (seller_cases old.seller_id (rw e at h))
  ]

module _ {F : Type 0} (env : Env F) (api : Api) (user_id role : String) (db : Db F) where
  own : (id : ℕ) (p : Product F) → find (has_id id) db.products ≡ some p → p.id ≡ id
  own id p read = (==_iff p.id id).0 (find_sound (has_id id) db.products p read)

  pub read_own :
      (id : ℕ) (p : Product F)
      → find (has_id id) db.products ≡ some p
      → find (has_id p.id) db.products ≡ some p
  read_own id p read = subst (λ k. find (has_id k) db.products ≡ some p) (sym (own id p read)) read

  -- The product that was read is the one that the request names.
  pub asked :
      (id : ℕ) (p : Product F) (id_text : String)
      → api.parse_uuid id_text ≡ some id
      → find (has_id id) db.products ≡ some p
      → api.parse_uuid id_text ≡ some p.id
  asked id p id_text parsed read =
      subst (λ k. api.parse_uuid id_text ≡ some k) (sym (own id p read)) parsed

  -- A successful edit is of the product that was read.
  is_read :
      (Content : Product F → Product F → Type 0) (id : ℕ) (p : Product F) (w : World F)
      → find (has_id id) db.products ≡ some p
      → (h : Edits env db Content id w) → p ≡ h.1.0
  is_read Content id p w read h = cc
    where
      found : find (has_id id) db.products ≡ some h.1.0
      found = subst (λ k. catalogue db k ≡ some h.1.0) h.1.1 h.1.2

  -- What a successful edit of a product that the user may edit means.
  pub alters :
      (request : Request F) (Content Asked : Product F → Product F → Type 0) (id : ℕ)
      (p : Product F) (w : World F)
      → find (has_id id) db.products ≡ some p
      → may_not_change api user_id role p ≡ false
      → ((product : Product F) → Content p product → Asked p product)
      → Edits env db Content id w
      → Alters env api user_id role request Asked (catalogue db) (catalogue w.db)
  alters request Content Asked id p w read may asks h = record {
    old = h.1.0;
    product = h.0;
    found = h.1.2;
    may =
        editor_cases api user_id role h.1.0
          (subst (λ q. may_not_change api user_id role q ≡ false) is_old may);
    same = h.1.3;
    asked =
        subst (λ q. Asked q h.0) is_old (asks h.0 (subst (λ q. Content q h.0) (sym is_old) h.1.5));
    puts = h.1.4;
  }
    where
      is_old : p ≡ h.1.0
      is_old = is_read Content id p w read h

  pub adds :
      (seller : ℕ) (body : Option (ProductCreate F)) (req : ProductCreate F) (r : Product F)
      (w : World F)
      → body ≡ some req
      → is_no_trader role ≡ false
      → api.parse_uuid user_id ≡ some seller
      → Creates env db (new_product seller req) r w
      → Adds env api user_id role (posts body) r (catalogue db) (catalogue w.db)
  adds seller body req r w is_body trader is_user h = record {
    trader = trader_cases role trader;
    seller = seller;
    is_user = is_user;
    body = req;
    is_body = rw is_body;
    product = h.0;
    is_seller = h.2;
    is_stored = h.5;
    is_reply = h.1;
    fresh = h.3;
    puts = h.4;
  }
