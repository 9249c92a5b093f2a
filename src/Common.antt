-- ===== src/Common.antt =====
-- backend/internal/common/progress.go, and the Redis options that both programs set.
pub mod Env
use kle_ng_api.Prelude.{String, Option, List, ℤ}

pub record RenderFile : Type 0 where
  pub name : String
  pub kind : String
  pub sheet : String

pub record ProjectFiles : Type 0 where
  pub renders : List RenderFile
  pub archive : String

pub record Progress : Type 0 where
  pub message : String
  pub files : Option ProjectFiles

-- `asynq.RedisClientOpt` and `redis.Options`, as far as they are set
pub record RedisOpt : Type 0 where
  pub addr : String
  pub password : String
  pub db : ℤ
