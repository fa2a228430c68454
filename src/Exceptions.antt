-- ===== src/Exceptions.antt =====
-- The exception codes of include/EEL_xno.h, in the order of EEL_ALLEXCEPTIONS, and the results of
-- functions that return such a code: 0 with a value, or an exception.
pub data Xno : Type 0 where
  xyield xcounter xend xreturn xrefuse xother xvmcheck xbadexception xinternal xvmerror : Xno
  xillegal xnotimplemented xcantread xcantwrite xcantindex xcantinplace xupvalue xcastfailed : Xno
  xnometamethod xnoconstructor xconstructor xbadcontext xarguments xfewargs xmanyargs : Xno
  xtupleargs xnoresult xneedreal xneedinteger xneedboolean xneedtypeid xneedobject xneedlist : Xno
  xneedstring xneeddstring xneedarray xneedtable xneedmodule xneedcallable xneedeven xwrongtype :
      Xno
  xbadtype xbadclass xlowindex xhighindex xwrongindex xfewitems xlowvalue xhighvalue xbadvalue : Xno
  xdivbyzero xoverflow xunderflow xdomain xmatherror xillegaloperation xmemory xeof xfileopen : Xno
  xfileseek xfileread xfilewrite xfileload xfilesave xfileopened xfileclosed xfileerror : Xno
  xdeviceopen xdeviceread xdevicewrite xdevicecontrol xdeviceopened xdeviceclosed xdeviceerror : Xno
  xsharingviolation xthreadcreate xbufoverflow xwrongformat xnonumber xbadbase xbigbase : Xno
  xbadinteger xbadfraction xbadexponent xrealnumber xcompile xsyntax xnotfound xmoduleload : Xno
  xmoduleinit xcantsetmethod xneedname xbadxcode xwidexrange xnofreeblocks : Xno

pub data Result {ℓ} (A : Type ℓ) : Type ℓ where
  ok : A → Result A
  exception : Xno → Result A
