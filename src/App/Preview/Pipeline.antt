-- ===== src/App/Preview/Pipeline.antt =====
-- src/service/app.py and worker.py: a preview from its request to the end of its build.
use app_generation_microserv.Base.Dict.{Dict}
use app_generation_microserv.Prd.{Prd}
use app_generation_microserv.Redis.{Redis}
