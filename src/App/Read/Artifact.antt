-- ===== src/App/Read/Artifact.antt =====
-- src/service/app.py: which file `get_apk` hands out.
use Prim.Native.String.{◌++◌}
use app_generation_microserv.Base.{
  String, ◌==◌, ◌≡◌, refl, sym, ap, ◌∙◌, inl, inr, Bool, true, not, ◌||◌, Option, none, some, arith,
  Bool-cases,
}
use app_generation_microserv.Jobs.{
  BuildStatus, succeeded, queued, running, failed, BuildJob, JobStore, get,
}
use app_generation_microserv.App.Read.{file, is_succeeded, artifact_of, apk_of, apk_found, get_apk}

is_succeeded-succeeded : (s : BuildStatus) → is_succeeded s ≡ true → s ≡ succeeded
is_succeeded-succeeded succeeded h = refl
is_succeeded-succeeded queued h = cc
is_succeeded-succeeded running h = cc
is_succeeded-succeeded failed h = cc

file_path : (p q n m : String) → file p n ≡ file q m → p ≡ q
file_path p q n m h = cc

artifact_of-file :
    (exists : String → Bool) (slug : String → String) (job : BuildJob) (o : Option String)
    (path name : String)
    → artifact_of exists slug job o ≡ file path name
    → (o ≡ some path) × (exists path ≡ true)
unfolding artifact_of
artifact_of-file exists slug job none path name h = cc
artifact_of-file exists slug job (some p) path name h =
    elim (Bool-cases (p == "" || not (exists p))) [
      | inl gone ↦ absurd (ground (arith, gone, h))
      | inr there ↦
          (let e = file_path p path (slug job.app_name ++ ".apk") name (rw there at h) in
            (ap some e, sym (ap exists e) ∙ ground (arith, there)))
    ]

apk_of-file :
    (exists : String → Bool) (slug : String → String) (job : BuildJob) (path name : String)
    → apk_of exists slug job ≡ file path name
    → (job.status ≡ succeeded) × (job.apk_path ≡ some path) × (exists path ≡ true)
unfolding apk_of
apk_of-file exists slug job path name h = elim (Bool-cases (is_succeeded job.status)) [
  | inr open_still ↦ absurd (ground (arith, open_still, h))
  | inl done ↦
      (let (there, kept) = artifact_of-file exists slug job job.apk_path path name (rw done at h) in
        (is_succeeded-succeeded job.status done, there, kept))
]

apk_found-file :
    (exists : String → Bool) (slug : String → String) (o : Option BuildJob) (path name : String)
    → apk_found exists slug o ≡ file path name
    → (job : BuildJob) × (o ≡ some job)
      × (job.status ≡ succeeded)
      × (job.apk_path ≡ some path)
      × (exists path ≡ true)
apk_found-file exists slug none path name h = cc
apk_found-file exists slug (some job) path name h =
    let (done, there, kept) = apk_of-file exists slug job path name h in
    (job, refl, done, there, kept)

-- The only file that is handed out under an id is the artifact on the record with that id, of a build
-- that succeeded, and it is there.
pub get_apk-file :
    (exists : String → Bool) (slug : String → String) (job_id : String) (store : JobStore)
    (path name : String)
    → get_apk exists slug job_id store ≡ file path name
    → (job : BuildJob) × (get job_id store ≡ some job)
      × (job.status ≡ succeeded)
      × (job.apk_path ≡ some path)
      × (exists path ≡ true)
unfolding get_apk
get_apk-file exists slug job_id store path name h =
    apk_found-file exists slug (get job_id store) path name h
