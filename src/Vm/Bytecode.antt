-- ===== src/Vm/Bytecode.antt =====
-- The module format of the virtual machine (include/lumiere/interpreter/vm/bytecode.hpp). The type
-- of the run-time values in a constant pool is a parameter, since nothing here looks into them.
use Prim.Native.String.{String}
use lumiere.Common.{ℕ, Bool, List}

pub record SourceLocation : Type 0 where
  pub line : ℕ
  pub column : ℕ

-- `code` is a sequence of bytes; a location stands beside each of them.
pub record Chunk {ℓ} (V : Type ℓ) : Type ℓ where
  pub code : List ℕ
  pub constants : List V
  pub locations : List SourceLocation

pub record FunctionBytecode {ℓ} (V : Type ℓ) : Type ℓ where
  pub name : String
  pub return_type : String
  pub source_path : String
  pub source_text : String
  pub arity : ℕ
  pub source_arity : ℕ
  pub optional_params : List Bool
  pub parameter_names : List String
  pub local_slot_count : ℕ
  pub capture_count : ℕ
  pub is_module_initializer : Bool
  pub chunk : Chunk V

pub record VmFieldDescriptor : Type 0 where
  pub name : String
  pub declared_type : String
  pub is_private : Bool
  pub is_fixed : Bool

pub record CaptureSource : Type 0 where
  pub from_capture : Bool
  pub index : ℕ

pub record VmMethodDescriptor : Type 0 where
  pub name : String
  pub function_index : ℕ
  pub parameter_types : List String
  pub return_type : String
  pub capture_sources : List CaptureSource
  pub is_private : Bool
  pub is_override : Bool

pub record VmClassDescriptor : Type 0 where
  pub name : String
  pub type_identity : String
  pub parent : String
  pub interfaces : List String
  pub fields : List VmFieldDescriptor
  pub methods : List VmMethodDescriptor

pub record VmInterfaceMethodDescriptor : Type 0 where
  pub name : String
  pub parameter_types : List String
  pub return_type : String

pub record VmInterfaceDescriptor : Type 0 where
  pub name : String
  pub type_identity : String
  pub methods : List VmInterfaceMethodDescriptor

pub record VmNamespaceMember : Type 0 where
  pub name : String
  pub global_index : ℕ

pub record VmNamespaceDescriptor : Type 0 where
  pub members : List VmNamespaceMember

pub record VmAnnotation : Type 0 where
  pub type_index : ℕ
  pub context : String

pub record ModuleBytecode {ℓ} (V : Type ℓ) : Type ℓ where
  pub source_path : String
  pub globals : List String
  pub types : List String
  pub annotations : List VmAnnotation
  pub members : List String
  pub classes : List VmClassDescriptor
  pub interfaces : List VmInterfaceDescriptor
  pub argument_names : List String
  pub namespaces : List VmNamespaceDescriptor
  pub functions : List (FunctionBytecode V)
  pub entry_function_index : ℕ
  pub initializer_function_index : ℕ
  pub initializer_function_indices : List ℕ
