-- ===== src/Http/Scoping.antt =====
-- What an API key of a few buckets opens on the routes of internal/files/handler.go.
use nexium_storage_back.Shared.{
  ℕ, ◌≡◌, false, String, Option, none, some, ◌∷◌, arith, forbidden, Result, ok, err,
}
use nexium_storage_back.World.{Log, sql, r2_delete, now, Ext, World}
use nexium_storage_back.Files.{
  owned_by, bucket_owner, find_bucket, FileInfo, lookup_owned, get_by_id, delete, delete_row,
}
use nexium_storage_back.Files.Access.{has_file, has_file-delete_where}
use nexium_storage_back.Middleware.{
  Context, Windows, authenticate_api_key, check_api_quota, require_bucket_scope,
}
use nexium_storage_back.Http.Files.{ext_file_route, delete_route, log_and_fire}
use nexium_storage_back.Server.{
  Increment, ext_route, rate_limited, enforce_api_quota, track_activity, touch, nobody,
}

auth-reads :
    (header : String) (c : Context) (x : Ext) (w : World)
    → (authenticate_api_key header c x w).1.db ≡ w.db
unfolding authenticate_api_key
auth-reads header c x w = ground arith

abbrev Deletes : ℕ → ℕ → Result (Unit {0}) → World → Type 0
Deletes u id r w = (r ≡ ok tt) × (has_file w.db u id ≡ false)

touched :
    (o : Option ℕ) (u id : ℕ) (x : Ext) (w : World)
    → ((touch o x w).0 ≡ ok tt) × (has_file (touch o x w).1.db u id ≡ has_file w.db u id)
unfolding touch owned_by bucket_owner find_bucket
touched none u id x w = ground arith
touched (some v) u id x w = ground arith

module _ (c : Context) (id u : ℕ) (x : Ext) {f : FileInfo} (user : c.user_id ≡ some u)
    (up : (l : Log) → x.fails l ≡ false) where
  deletes :
      (w : World)
      → lookup_owned w.db id u ≡ some f
      → let (r, w') = delete_route c (some id) x w in Deletes u id r w'
  unfolding delete_route log_and_fire delete get_by_id delete_row
  deletes w e =
      let l1 : Log = sql "files.GetByID" ∷ w.log in
      let l2 : Log = r2_delete f.row.object_key ∷ l1 in
      ground (arith, has_file-delete_where w.db u id, up l1, up l2, up (sql "files.Delete" ∷ l2))

  tracked :
      (w : World)
      → lookup_owned w.db id u ≡ some f
      → let (r, w') = track_activity (λ k. delete_route k (some id)) c x w in Deletes u id r w'
  unfolding track_activity
  tracked w e =
      let w' = (delete_route c (some id) x w).1 in
      ground (arith, deletes w e, touched c.user_id u id x w')

  enforced :
      (w : World) {answer : Result (Unit {0}) × Option Increment}
      → lookup_owned w.db id u ≡ some f
      → let (r, w') = enforce_api_quota (track_activity (λ k. delete_route k (some id))) c x w in
        r ≡ ok answer → Deletes u id answer.0 w'
  unfolding enforce_api_quota check_api_quota
  enforced w e through = ground (arith, tracked (check_api_quota u x w).1, user)

  limited :
      (m : Windows) (w : World) {answer : Result (Unit {0}) × Option Increment}
      → lookup_owned w.db id u ≡ some f
      → let route = enforce_api_quota (track_activity (λ k. delete_route k (some id))) in
        let (r, w') = (rate_limited route c m x w).1 in r ≡ ok answer → Deletes u id answer.0 w'
  unfolding rate_limited
  limited m w {answer = answer} e through =
      ground (arith, enforced w {answer = answer} e, enforced (now x w).1 {answer = answer} e)

-- A key that is restricted to a few buckets deletes any file of the owner of its project by the
-- identifier: where the limiter and the monthly quota let the request through and no call fails,
-- the answer is a success and the file is gone, although the scope of the key refuses its bucket.
pub scoped_key_deletes :
    (header : String) (c' : Context) (id u : ℕ) (m : Windows) (x : Ext) (w : World) {f : FileInfo}
    {answer : Result (Unit {0}) × Option Increment}
    → (authenticate_api_key header nobody x w).0 ≡ ok c'
    → c'.user_id ≡ some u
    → lookup_owned w.db id u ≡ some f
    → require_bucket_scope c' (some f.row.bucket_id) ≡ err forbidden
    → ((l : Log) → x.fails l ≡ false)
    → let (r, w') = (ext_route header (ext_file_route (λ k. delete_route k (some id))) m x w).1 in
      r ≡ ok answer → (answer.0 ≡ ok tt) × (has_file w'.db u id ≡ false)
unfolding ext_route ext_file_route
scoped_key_deletes header c' id u m x w {f = f} {answer = answer} auth user e refused up through =
    let w1 = (authenticate_api_key header nobody x w).1 in
    let owned : lookup_owned w1.db id u ≡ some f = ground (arith, auth-reads header nobody x w) in
    ground (arith, limited c' id u x {f = f} user up m w1 {answer = answer} owned)
