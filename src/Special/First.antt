-- ===== src/Special/First.antt =====
-- The first special response decides, whatever the script does after it.
use http_nu.Common.{◌≡◌, refl, ap, ◌∙◌, Bool, true, false, List, [], ◌∷◌, Option, none, some}
use mathlib.Core.Bool.{true≢false, false≢true}
use http_nu.HeaderMap.{HeaderMap}
use http_nu.Response.{ResponseBodyType, normal, static_files, reverse_proxy, Response}
use http_nu.Worker.{PipelineResult}
use http_nu.Handler.Inner.{Crates, Request, dispatch}
use http_nu.Special.{ResponseTx, response_tx, send_taken, send_response, special}

-- The commands that a script runs, one after the other.
abbrev pub send_all : List ResponseBodyType → ResponseTx → ResponseTx
send_all [] tx = tx
send_all (b ∷ bs) tx = send_all bs (send_response (special b) tx).1

abbrev pub body_type_of : Option Response → Option ResponseBodyType
body_type_of none = none
body_type_of (some r) = some r.body_type

abbrev pub is_special : ResponseBodyType → Bool
is_special normal = false
is_special (static_files root path fallback) = true
is_special (reverse_proxy url headers keep prefix body query) = true

none_is_sent :
    (r : Response) (tx : ResponseTx) (s o : Bool) → s ≡ false → (send_taken r tx s o).1 ≡ tx
none_is_sent r tx false o h = refl
none_is_sent r tx true o h = absurd (true≢false h)

unsent_after :
    (bs : List ResponseBodyType) (tx : ResponseTx)
    → tx.sender ≡ false
    → (send_all bs tx).sent ≡ tx.sent
unfolding send_response
unsent_after [] tx h = refl
unsent_after (b ∷ bs) tx h =
    ap (λ t. (send_all bs t).sent) (none_is_sent (special b) tx tx.sender tx.receiving h)
    ∙ unsent_after bs tx h

-- A script's first `.static` or `.reverse-proxy` decides its answer: with the responses that it
-- sends after it, and whatever the evaluation gives in the end (a body, or nothing because it
-- failed), the request is dispatched as by that first one alone.
pub send_all-dispatch :
    (H : HeaderMap) (C : Crates H) (req : Request H) (b : ResponseBodyType)
    (bs : List ResponseBodyType) (result : Option PipelineResult)
    → is_special b ≡ true
    → dispatch H C req (body_type_of (send_all (b ∷ bs) response_tx).sent) result
      ≡ dispatch H C req (some b) none
unfolding dispatch send_response
send_all-dispatch H C req normal bs result h = absurd (false≢true h)
send_all-dispatch H C req (static_files root path fallback) bs result h =
    ap (λ o. dispatch H C req (body_type_of o) result)
      (unsent_after bs (send_response (special (static_files root path fallback)) response_tx).1
        refl)
send_all-dispatch H C req (reverse_proxy url headers keep prefix body query) bs result h =
    ap (λ o. dispatch H C req (body_type_of o) result)
      (unsent_after bs
        (send_response (special (reverse_proxy url headers keep prefix body query)) response_tx).1
        refl)
