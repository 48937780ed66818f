-- ===== src/Http/Anonymous.antt =====
-- What the routes of internal/*/handler.go do for a request without a user.
use nexium_storage_back.Shared.{
  ℕ, ◌≡◌, Bool, String, Option, none, List, unauthorized, Result, err, ℤ, arith,
}
use nexium_storage_back.World.{Ext, World}
use nexium_storage_back.Middleware.{Context}
use nexium_storage_back.Files.{Service as FileService}
use nexium_storage_back.Auth.{Service as AuthService, UpdateProfileRequest}
use nexium_storage_back.Projects.{Service as ProjectService}
use nexium_storage_back.Http.{
  Form, ConfirmRequest, upload_route, list_route, download_route, rename_route, delete_route,
  presign_route, confirm_route, stream_route, logout_route, me_route, request_email_change_route,
  confirm_email_change_route, cancel_email_change_route, update_me_route,
}
use nexium_storage_back.Http.Projects
use nexium_storage_back.Http.Buckets
use nexium_storage_back.Http.Keys

-- The answer is a 401, and no call has been made.
abbrev TurnedAway {ℓ} : {A : Type ℓ} → World → Result A × World → Type ℓ
TurnedAway w r = r ≡ (err unauthorized, w)

-- Without a user in the context, each route on files turns the request away.
anonymous_files :
    (s : FileService) (c : Context) (id : Option ℕ) (form : Result Form) (req : ConfirmRequest)
    (name mime : String) (page per_page : ℤ) (x : Ext) (w : World)
    → c.user_id ≡ none
    → TurnedAway w (upload_route s c id form x w)
      × TurnedAway w (list_route s c id name page per_page x w)
      × TurnedAway w (download_route c id x w)
      × TurnedAway w (rename_route s c id name x w)
      × TurnedAway w (delete_route c id x w)
      × TurnedAway w (presign_route s c id name mime x w)
      × TurnedAway w (confirm_route s c id req x w)
      × TurnedAway w (stream_route c id x w)
unfolding upload_route list_route download_route rename_route delete_route presign_route
    confirm_route stream_route
anonymous_files s c id form req name mime page per_page x w none_ = ground arith

-- So does each route on the account, the projects, the buckets and the keys of a user.
anonymous_account :
    (s : AuthService) (c : Context) (text : Option String) (req : Option UpdateProfileRequest)
    (x : Ext) (w : World)
    → c.user_id ≡ none
    → TurnedAway w (logout_route c text x w)
      × TurnedAway w (me_route s c x w)
      × TurnedAway w (request_email_change_route s c text x w)
      × TurnedAway w (confirm_email_change_route s c text x w)
      × TurnedAway w (cancel_email_change_route c x w)
      × TurnedAway w (update_me_route s c req x w)
unfolding logout_route me_route request_email_change_route confirm_email_change_route
    cancel_email_change_route update_me_route
anonymous_account s c text req x w none_ = ground arith

anonymous_resources :
    (s : ProjectService) (clean : String → String) (c : Context) (id : Option ℕ)
    (text : Option String) (bucket : Option (String × Option Bool)) (key : Option (String × List ℕ))
    (x : Ext) (w : World)
    → c.user_id ≡ none
    → TurnedAway w (Projects.list_route c x w)
      × TurnedAway w (Projects.create_route s c text x w)
      × TurnedAway w (Projects.get_route c id x w)
      × TurnedAway w (Projects.update_route s c id text x w)
      × TurnedAway w (Projects.delete_route s c id x w)
      × TurnedAway w (Projects.summary_route c id x w)
      × TurnedAway w (Buckets.list_route c id x w)
      × TurnedAway w (Buckets.create_route clean c id bucket x w)
      × TurnedAway w (Buckets.update_route clean c id bucket x w)
      × TurnedAway w (Buckets.delete_route c id x w)
      × TurnedAway w (Keys.list_route c id x w)
      × TurnedAway w (Keys.create_route clean c id key x w)
      × TurnedAway w (Keys.revoke_route c id x w)
unfolding Projects.list_route Projects.create_route Projects.get_route Projects.update_route
    Projects.delete_route Projects.summary_route Buckets.list_route Buckets.create_route
    Buckets.update_route Buckets.delete_route Keys.list_route Keys.create_route Keys.revoke_route
anonymous_resources s clean c id text bucket key x w none_ = ground arith
