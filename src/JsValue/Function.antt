-- ===== src/JsValue/Function.antt =====
-- src/vm/jsvalue/function.rs: what the code generator leaves of a function for the machine to run. A
-- reference to a function's information is its address.
use rapidus.Prelude.{ℕ, Bool, false, String, List, [], ◌∷◌, Option, none}
use rapidus.Bytecode.Words.{ByteCode}
use rapidus.Bytecode.Inst

pub data ThisMode : Type 0 where
  lexical global strict : ThisMode

pub record FunctionParameter : Type 0 where
  pub name : String
  pub rest_param : Bool

pub data DestinationKind : Type 0 where
  catch finally : DestinationKind

-- An exception may be thrown at an address of `[start, end)`.
pub record Exception : Type 0 where
  pub start : ℕ
  pub end : ℕ
  pub dst_kind : DestinationKind

pub record UserFunctionInfo : Type 0 where
  pub func_name : Option String
  pub func_id : ℕ
  pub module_func_id : ℕ
  pub params : List FunctionParameter
  pub var_names : List String
  pub lex_names : List String
  pub func_decls : List ℕ
  pub code : ByteCode
  pub exception_table : List Exception
  pub constructible : Bool
  pub this_mode : ThisMode

-- `UserFunctionInfo::default`: the body `PUSH_UNDEFINED`, `RETURN`.
abbrev pub default : UserFunctionInfo
default = record {
  func_name = none;
  func_id = 0;
  module_func_id = 0;
  params = [];
  var_names = [];
  lex_names = [];
  func_decls = [];
  code = Inst.push_undefined ∷ Inst.return_op ∷ [];
  exception_table = [];
  constructible = false;
  this_mode = global;
}
