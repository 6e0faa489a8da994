-- ===== src/Library/Url.antt =====
-- Python's `urlparse`: the parts of a URL that the program reads.
use unifi_netwatcher.Base.{Text, Result, ℕ, Option}

pub record Url : Type 0 where
  pub scheme : Text
  pub netloc : Text
  pub hostname : Option Text
  -- reading it raises for a port that is not one
  pub port : Result (Option ℕ)
  pub path : Text
  pub query : Text
