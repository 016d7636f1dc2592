-- ===== src/Factory/Tests.antt =====
-- The table of functions of src/vm/factory.rs with one function stored.
use rapidus.Prelude.{ℕ, ◌+◌, ◌==◌, ◌≡◌, refl, true, false, [], none, some, if◌then◌else◌}
use rapidus.JsValue.Value.{null}
use rapidus.JsValue.Function.{UserFunctionInfo, global}
use rapidus.Factory
use rapidus.Factory.{Host, Factory, get_func_ref, alloc_user_func_info}
use rapidus.Factory.Registered.{get_func_ref-alloc_user_func_info}

abbrev host : Host
host = record { address = λ n. n + 1; as_f64 = λ n. n; has_nul = λ s. false }

abbrev prototypes : Factory.ObjectPrototypes
prototypes = record {
  object = null;
  function = null;
  string = null;
  array = null;
  symbol = null;
  error = null;
}

abbrev info : UserFunctionInfo
info = record {
  func_name = none;
  func_id = 3;
  module_func_id = 1;
  params = [];
  var_names = [];
  lex_names = [];
  func_decls = [];
  code = [];
  exception_table = [];
  constructible = true;
  this_mode = global;
}

factory : Factory
unfolding Factory.new
factory = Factory.new host [] prototypes

-- Within the thirty slots of a new factory, and behind them.
get_func_ref-alloc_user_func_info_example :
    (r : ℕ) × (f' : Factory) × (alloc_user_func_info 3 info factory ≡ some (r, f'))
    × ((k : ℕ) → get_func_ref k f' ≡ (if 3 == k then some r else get_func_ref k factory))
    × (f'.next_func_id ≡ factory.next_func_id)
    × (f'.host ≡ factory.host)
unfolding factory Factory.new get_func_ref
get_func_ref-alloc_user_func_info_example = get_func_ref-alloc_user_func_info 3 info factory refl
