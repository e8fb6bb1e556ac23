-- ===== src/Rest/Tokens/Verdicts.antt =====
-- Which reply an answer with status 200 stands for.
use bondster_bco.Base.{◌≡◌, refl, sym, ◌∙◌, ap, Option, some, arith}
use bondster_bco.Base.Text.{Bytes}
use bondster_bco.Json.{Json}
use bondster_bco.Rest.{status, path_parameter, tenant_parameter}
use bondster_bco.Rest.Relay.{
  Reply, fatal, token_created, token_deleted, synchronize_accepted, token_missing, unreadable,
  reply_timeout, Sent, create_token, delete_token,
}
use bondster_bco.Rest.Tokens.{
  credentials, created_status, deleted_status, create_for, create_with, delete_for,
  handle_create_token, handle_delete_token,
}

created_status_ok :
    (id body : Bytes) (r : Reply) → created_status id r ≡ status 200 body → r ≡ token_created
unfolding created_status
created_status_ok id body token_created h = refl
created_status_ok id body fatal h = cc
created_status_ok id body token_deleted h = cc
created_status_ok id body synchronize_accepted h = cc
created_status_ok id body token_missing h = cc
created_status_ok id body unreadable h = cc
created_status_ok id body reply_timeout h = ground arith

deleted_status_ok :
    (body : Bytes) (r : Reply) → deleted_status r ≡ status 200 body → r ≡ token_deleted
unfolding deleted_status
deleted_status_ok body token_deleted h = refl
deleted_status_ok body fatal h = cc
deleted_status_ok body token_created h = cc
deleted_status_ok body synchronize_accepted h = cc
deleted_status_ok body token_missing h = ground arith
deleted_status_ok body unreadable h = cc
deleted_status_ok body reply_timeout h = ground arith

module _ (exchange : Sent → Option Bytes) (relay : Bytes) where
  pub handle_create_token_ok :
      (id tenant body : Bytes) (request : Json) {t username password : Bytes}
      → tenant_parameter tenant ≡ some t
      → credentials request ≡ some (username, password)
      → handle_create_token exchange relay id tenant (some request) ≡ status 200 body
      → create_token exchange relay t id username password ≡ token_created
  unfolding handle_create_token create_for create_with
  handle_create_token_ok id tenant body request {t} h k e = created_status_ok id body _ (
      sym (
        ap (create_for exchange relay id (some request)) h ∙ ap (create_with exchange relay id t) k)
      ∙ e)

  pub handle_delete_token_ok :
      (tenant id body : Bytes) {t i : Bytes}
      → tenant_parameter tenant ≡ some t
      → path_parameter id ≡ some i
      → handle_delete_token exchange relay tenant id ≡ status 200 body
      → delete_token exchange relay t i ≡ token_deleted
  unfolding handle_delete_token delete_for
  handle_delete_token_ok tenant id body h k e = deleted_status_ok body _ (
      sym (
        ap (λ x. delete_for exchange relay x (path_parameter id)) h
        ∙ ap (delete_for exchange relay (some _)) k)
      ∙ e)
