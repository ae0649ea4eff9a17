-- ===== src/Consumers/Laws.antt =====
-- What a repository of consumers promises, and that the one in memory keeps it.
use high_performance_event_s.Common.{◌≡◌, ◌≢◌, String, none, arith}
use high_performance_event_s.Common.Dict.{
  lookup-insert_self, lookup-insert_ne, lookup-delete_self, lookup-delete_ne,
}
use high_performance_event_s.Common.Outcome.{ok, err}
use high_performance_event_s.Domain.Filter.{Regexp}
use high_performance_event_s.Domain.Consumer.{Consumer}
use high_performance_event_s.Consumers.{ConsumerRepository, in_memory}

module _ (R : Regexp) where
  -- A consumer that is saved is found, one that is deleted is not, and the others are as before.
  pub record IsLawful (repo : ConsumerRepository R) : Type 0 where
    pub get_saved :
        (c : Consumer R) (s : repo.State)
        → (repo.save c s).0 ≡ none
        → repo.get (c.id) (repo.save c s).1 ≡ ok c
    pub get_other_saved :
        (c : Consumer R) (id : String) (s : repo.State)
        → c.id ≢ id
        → repo.get id (repo.save c s).1 ≡ repo.get id s
    pub get_deleted :
        (id : String) (s : repo.State)
        → (repo.delete_id id s).0 ≡ none
        → (e : String) × (repo.get id (repo.delete_id id s).1 ≡ err e)
    pub get_other_deleted :
        (id j : String) (s : repo.State)
        → id ≢ j
        → repo.get j (repo.delete_id id s).1 ≡ repo.get j s

  -- The repository in memory keeps the promises of its port: what is saved is found, what is deleted
  -- is not, and neither changes what is found under another identifier.
  pub in_memory-IsLawful : IsLawful (in_memory R)
  unfolding in_memory
  in_memory-IsLawful = record {
    get_saved = λ c s h. ground (arith, lookup-insert_self c.id c s);
    get_other_saved = λ c id s h. ground (arith, lookup-insert_ne c.id id c s h);
    get_deleted = λ id s h. ("consumer not found", ground (arith, lookup-delete_self id s));
    get_other_deleted = λ id j s h. ground (arith, lookup-delete_ne id j s h);
  }
