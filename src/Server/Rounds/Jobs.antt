-- ===== src/Server/Rounds/Jobs.antt =====
-- The messages of one key for the engine, without their time stamps and senders.
use deep_inc.Base.{ℕ, Bool, false, if◌then◌else◌, Option, some, List, [], ◌∷◌}
use deep_inc.Server.State.{
  Meta, Pairs, Message, EngineOperation, sum_recv, copy_first, all_recv, Ptr, store_of, received,
}

pub record Job : Type 0 where
  pub ops : EngineOperation
  pub key : ℕ
  pub dst : Option ℕ
  pub src : Option Ptr
  pub len : ℕ
  pub dtype : ℕ

abbrev pub job_of : Message → Job
job_of m = record {
  ops = m.ops;
  key = m.key;
  dst = m.dst;
  src = m.src;
  len = m.len;
  dtype = m.type.dtype;
}

abbrev pub data_job : ℕ → ℕ → ℕ → Bool → List ℕ → Job
data_job key len dtype first vals = record {
  ops = if first then copy_first else sum_recv;
  key = key;
  dst = some key;
  src = some (received vals);
  len = len;
  dtype = dtype;
}

abbrev pub end_job : ℕ → ℕ → ℕ → Job
end_job key len dtype = record {
  ops = all_recv;
  key = key;
  dst = some key;
  src = some (store_of key);
  len = len;
  dtype = dtype;
}

-- One job for each push: the first is copied, the others are added.
abbrev pub data_jobs : ℕ → ℕ → ℕ → Bool → List (Meta × Pairs) → List Job
data_jobs key len dtype first [] = []
data_jobs key len dtype first (p ∷ ps) =
    data_job key len dtype first p.1.vals ∷ data_jobs key len dtype false ps
