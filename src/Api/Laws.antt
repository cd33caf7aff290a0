-- ===== src/Api/Laws.antt =====
-- Deleting a file from the media library, from the page to the relay.

use audio_server.Common.{List, String, [], ap, none, some, ◌∷◌, ◌≡◌}
use audio_server.Http.{Env, FetchRequest, Fetched, Reply, replied, truthy}
use audio_server.Http.Cookies
use audio_server.Http.Cookies.{Jar, get, value_of}
use audio_server.Auth.{admin_cookie}
use audio_server.Relay.{
  Answer, Incoming, admin_relay, answered, forwarded, json_error, server_error,
}
use audio_server.Relay.Laws.{no_content_throws}
use audio_server.Api.{Fetch, delete_media, delete_request, json_error, rejects, status_error}

-- The response that a browser sees of a handler's answer.
abbrev pub seen : {B : Type 0} → Answer B → Fetched (Unit {0})
seen (json_error error status) =
    replied (record { status = status; content_type = some "application/json"; body = some tt })
seen (answered status content_type bytes) =
    replied (record { status = status; content_type = some content_type; body = some tt })
seen server_error = replied (record { status = 500; content_type = none; body = none })

module _ {B : Type 0} (V : Type 0) (env : Env) (relay : FetchRequest B → Fetched B) (jar : Jar)
    (encode : String → String) where
  -- A file that the relay deletes is reported as not deleted: if the page's request reaches the
  -- admin's proxy with a session, and the relay answers the proxy's request with 204, then the
  -- method of the page's client fails with the status 500.
  pub delete_media_reports_failure :
      (fetch : Fetch V (Unit {0})) (id token : String) (path : List String) (request : Incoming B)
      → fetch (delete_request V encode id) ≡ seen (admin_relay env relay jar path request).1
      → truthy (Cookies.value_of (Cookies.get admin_cookie jar)) ≡ some token
      → (res : Reply B) → relay (forwarded env token path request) ≡ replied res
      → res.status ≡ 204
      → ((admin_relay env relay jar path request).0 ≡ forwarded env token path request ∷ [])
        × (delete_media V encode fetch id ≡ rejects (status_error "media delete" 500))
  unfolding delete_media
  delete_media_reports_failure fetch id token path request routed here res e s =
      let thrown = no_content_throws env relay path request jar token here res e s in
      (ap (λ (o : List (FetchRequest B) × Answer B). o.0) thrown, rw (routed, thrown))
