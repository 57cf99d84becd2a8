-- ===== src/Mongo.antt =====
-- The document store, which the services call and the repository does not implement: one collection
-- is the list of its documents in natural order, and the operations on it are a parameter.
-- `IsCollection` is what the MongoDB manual documents of them.
use pezhwan.Base.{
  ℕ, Bool, Option, none, some, not, List, [], ◌∷◌, ◌++◌, ◌≡◌, refl, sym, count, find, filter,
  update_first, update_all, remove_first,
}

pub record Collection (D : Type 0) : Type 0 where
  pub find_one : (D → Bool) → List D → Option D
  pub find : (D → Bool) → List D → List D
  pub count_documents : (D → Bool) → List D → ℕ
  pub create : D → List D → List D
  pub update_one : (D → Bool) → (D → D) → List D → List D
  pub update_many : (D → Bool) → (D → D) → List D → List D
  pub delete_one : (D → Bool) → List D → List D
  pub delete_many : (D → Bool) → List D → List D
  -- With `new: true`: the document as it is after the update.
  pub find_one_and_update : (D → Bool) → (D → D) → List D → Option D × List D
  -- With `upsert: true, new: true`: the last argument is the document that is inserted on a miss.
  pub find_one_and_upsert : (D → Bool) → (D → D) → D → List D → D × List D

abbrev pub upsert_found : {D : Type 0} → Option D → (D → Bool) → (D → D) → D → List D → D × List D
upsert_found none p f d l = (d, l ++ d ∷ [])
upsert_found (some x) p f d l = (f x, update_first p f l)

abbrev pub updated_found : {D : Type 0} → Option D → (D → D) → Option D
updated_found none f = none
updated_found (some x) f = some (f x)

-- The collection as a list: the documented meaning of each operation.
abbrev pub list_collection : {D : Type 0} → Collection D
list_collection = record {
  find_one = find;
  find = filter;
  count_documents = count;
  create = λ d l. l ++ d ∷ [];
  update_one = update_first;
  update_many = update_all;
  delete_one = remove_first;
  delete_many = λ p. filter (λ d. not (p d));
  find_one_and_update = λ p f l. (updated_found (find p l) f, update_first p f l);
  find_one_and_upsert = λ p f d l. upsert_found (find p l) p f d l;
}

pub record IsCollection {D : Type 0} (c : Collection D) : Type 0 where
  pub find_one_law : (p : D → Bool) (l : List D) → c.find_one p l ≡ find p l
  pub find_law : (p : D → Bool) (l : List D) → c.find p l ≡ filter p l
  pub count_law : (p : D → Bool) (l : List D) → c.count_documents p l ≡ count p l
  pub create_law : (d : D) (l : List D) → c.create d l ≡ l ++ d ∷ []
  pub update_one_law :
      (p : D → Bool) (f : D → D) (l : List D) → c.update_one p f l ≡ update_first p f l
  pub update_many_law :
      (p : D → Bool) (f : D → D) (l : List D) → c.update_many p f l ≡ update_all p f l
  pub delete_one_law : (p : D → Bool) (l : List D) → c.delete_one p l ≡ remove_first p l
  pub delete_many_law : (p : D → Bool) (l : List D) → c.delete_many p l ≡ filter (λ d. not (p d)) l
  pub find_one_and_update_law :
      (p : D → Bool) (f : D → D) (l : List D)
      → c.find_one_and_update p f l ≡ (updated_found (find p l) f, update_first p f l)
  pub find_one_and_upsert_law :
      (p : D → Bool) (f : D → D) (d : D) (l : List D)
      → c.find_one_and_upsert p f d l ≡ upsert_found (find p l) p f d l

-- The documented meaning determines the operations, so what is proved of the list of documents
-- holds of every collection.
pub list_collection_unique : {D : Type 0} (c : Collection D) → IsCollection c → list_collection ≡ c
list_collection_unique c laws i = record {
  find_one = λ p l. sym (laws.find_one_law p l) i;
  find = λ p l. sym (laws.find_law p l) i;
  count_documents = λ p l. sym (laws.count_law p l) i;
  create = λ d l. sym (laws.create_law d l) i;
  update_one = λ p f l. sym (laws.update_one_law p f l) i;
  update_many = λ p f l. sym (laws.update_many_law p f l) i;
  delete_one = λ p l. sym (laws.delete_one_law p l) i;
  delete_many = λ p l. sym (laws.delete_many_law p l) i;
  find_one_and_update = λ p f l. sym (laws.find_one_and_update_law p f l) i;
  find_one_and_upsert = λ p f d l. sym (laws.find_one_and_upsert_law p f d l) i;
}

pub list_collection-IsCollection : {D : Type 0} → IsCollection (list_collection {D = D})
list_collection-IsCollection = record {
  find_one_law = λ p l. refl;
  find_law = λ p l. refl;
  count_law = λ p l. refl;
  create_law = λ d l. refl;
  update_one_law = λ p f l. refl;
  update_many_law = λ p f l. refl;
  delete_one_law = λ p l. refl;
  delete_many_law = λ p l. refl;
  find_one_and_update_law = λ p f l. refl;
  find_one_and_upsert_law = λ p f d l. refl;
}
