-- ===== src/Server/Request/Head.antt =====
-- HEAD and GET.
use pet_project.Base.{◌≡◌, ◌≢◌, ◌↔◌, refl, Bool, true, false, arith}
use pet_project.Base.Text.{Text}
use pet_project.Handler.Request.{ReqInfo}
use pet_project.Server.Request.{
  get, head, HttpRequest, HttpResponse, empty_body, HandleRequest, Opened, error_status, respond,
}

-- A response without its body.
abbrev pub head_of : HttpResponse → HttpResponse
head_of r = record r { body = empty_body }

-- For the same outcome of the handler, HEAD is answered with the status and all the fields of the
-- answer to GET, the length of the body that GET has among them.
pub head_of-respond :
    (h : HandleRequest) (req : HttpRequest) (open_file : Text → Opened) (file : Bool) (r : ReqInfo)
    → head_of (respond h (record req { verb = head }) open_file file r)
      ≡ head_of (respond h (record req { verb = get }) open_file file r)
unfolding respond
head_of-respond h req open_file false r = refl
head_of-respond h req open_file true r = ground arith

error_status-ne : (error : Text) → error_status error ≢ 200
unfolding error_status
error_status-ne error = ground arith

-- The answer to HEAD has no body exactly when its status is 200: every error is answered with a body
-- of text, which HTTP does not allow.
pub head_body_iff :
    (h : HandleRequest) (req : HttpRequest) (open_file : Text → Opened) (file : Bool) (r : ReqInfo)
    → let res = respond h (record req { verb = head }) open_file file r in
      (res.body ≡ empty_body) ↔ (res.status ≡ 200)
unfolding respond
head_body_iff h req open_file false r = (λ _. refl, λ _. refl)
head_body_iff h req open_file true r =
    (λ e. ground (arith, error_status-ne r.error), λ e. ground (arith, error_status-ne r.error))
